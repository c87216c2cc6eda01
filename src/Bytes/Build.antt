-- ===== src/Bytes/Build.antt =====
-- The byte builder: what it builds, and that its length is that of its chunks.
use mathlib.Core.List.{append_assoc, append-nil}
use sprout_lang.Prelude.{
  ℕ, ◌+◌, ◌-◌, ◌^◌, ◌<◌, ltb, true, false, ◌==◌, Option, none, some, List, [], ◌∷◌, ◌++◌, ◌≡◌, refl,
  sym, ap, ◌∙◌, inl, inr, ok, length, length-append, Bool-cases, arith,
}
use sprout_lang.Bytes.{
  BuilderVal, bytes_builder_bytes, joined, bytes_builder_append, copy_chunks, bytes_builder_build,
}

-- No chunk is NULL.
unfoldable pub AllPresent : List (Option (List ℕ)) → Type 0
AllPresent [] = Unit
AllPresent (none ∷ chunks) = ⊥
AllPresent (some chunk ∷ chunks) = AllPresent chunks

unfoldable pub total : List (Option (List ℕ)) → ℕ
total [] = 0
total (none ∷ chunks) = total chunks
total (some chunk ∷ chunks) = length chunk + total chunks

pub record IsValid (b : BuilderVal) : Type 0 where
  pub present : AllPresent b.chunks
  pub filled : b.len ≡ total b.chunks

-- The bytes of the chunks, one behind the other.
unfoldable contents : List (Option (List ℕ)) → List ℕ
contents [] = []
contents (none ∷ chunks) = contents chunks
contents (some chunk ∷ chunks) = chunk ++ contents chunks

length-contents : (chunks : List (Option (List ℕ))) → length (contents chunks) ≡ total chunks
unfolding contents total
length-contents [] = refl
length-contents (none ∷ chunks) = length-contents chunks
length-contents (some chunk ∷ chunks) =
    omega (arith, length-append chunk (contents chunks), length-contents chunks)

contents-append :
    (xs ys : List (Option (List ℕ))) → contents (xs ++ ys) ≡ contents xs ++ contents ys
unfolding contents
contents-append [] ys = refl
contents-append (none ∷ xs) ys = contents-append xs ys
contents-append (some chunk ∷ xs) ys =
    ap (λ zs. chunk ++ zs) (contents-append xs ys)
    ∙ sym (append_assoc chunk (contents xs) (contents ys))

-- Chunks that fill a buffer are copied one behind the other.
copy-AllPresent :
    (chunks : List (Option (List ℕ))) (room : ℕ)
    → AllPresent chunks
    → room ≡ total chunks
    → copy_chunks chunks room ≡ ok (contents chunks)
unfolding copy_chunks AllPresent total contents
copy-AllPresent [] room h e = rw e
copy-AllPresent (none ∷ chunks) room h e = absurd h
copy-AllPresent (some chunk ∷ chunks) room h e =
    let fits : ltb room (length chunk) ≡ false = ground arith in
    let rest = copy-AllPresent chunks (room - length chunk) h (omega arith) in rw (fits, rest)

AllPresent-append :
    (xs ys : List (Option (List ℕ))) → AllPresent xs → AllPresent ys → AllPresent (xs ++ ys)
unfolding AllPresent
AllPresent-append [] ys h k = k
AllPresent-append (none ∷ xs) ys h k = absurd h
AllPresent-append (some chunk ∷ xs) ys h k = AllPresent-append xs ys h k

total-append : (xs ys : List (Option (List ℕ))) → total (xs ++ ys) ≡ total xs + total ys
unfolding total
total-append [] ys = omega arith
total-append (none ∷ xs) ys = total-append xs ys
total-append (some chunk ∷ xs) ys = omega (arith, total-append xs ys)

joined-IsValid :
    (l r : BuilderVal) → IsValid l → IsValid r → l.len + r.len < 2 ^ 64 → IsValid (joined l r)
unfolding joined
joined-IsValid l r p q fits = elim (Bool-cases (length l.chunks == 0)) [
  | inl no_left ↦ rw no_left q
  | inr left ↦ elim (Bool-cases (length r.chunks == 0)) [
    | inl no_right ↦ rw (left, no_right) p
    | inr right ↦
        rw (left, right)
          (record {
            present = AllPresent-append l.chunks r.chunks p.present q.present;
            filled = omega (arith, p.filled, q.filled, total-append l.chunks r.chunks);
          })
  ]
]

length-zero : {A : Type 0} (xs : List A) → (length xs == 0) ≡ true → xs ≡ []
length-zero [] h = refl
length-zero (x ∷ xs) h = absurd (ground arith)

chunks-joined : (l r : BuilderVal) → (joined l r).chunks ≡ l.chunks ++ r.chunks
unfolding joined
chunks-joined l r = elim (Bool-cases (length l.chunks == 0)) [
  | inl no_left ↦ rw no_left (ap (λ xs. xs ++ r.chunks) (sym (length-zero l.chunks no_left)))
  | inr left ↦ elim (Bool-cases (length r.chunks == 0)) [
    | inl no_right ↦
        rw (left, no_right)
          (sym (append-nil l.chunks)
            ∙ ap (λ xs. l.chunks ++ xs) (sym (length-zero r.chunks no_right)))
    | inr right ↦ rw (left, right)
  ]
]

built : (b : BuilderVal) → IsValid b → bytes_builder_build (some b) ≡ ok (contents b.chunks)
unfolding bytes_builder_build
built b h = copy-AllPresent b.chunks b.len h.present h.filled

-- Builders whose length is that of their chunks, none of them NULL, and whose lengths sum to less
-- than 2 ^ 64: appending gives such a builder, and it builds what the first one builds, followed by
-- what the second one builds, in a buffer of just its length.
pub bytes_builder_append_lem :
    (l r : BuilderVal)
    → IsValid l
    → IsValid r
    → l.len + r.len < 2 ^ 64
    → (both : BuilderVal) × (left right : List ℕ) × (bytes_builder_append (some l) (some r)
        ≡ ok both)
      × IsValid both
      × (bytes_builder_build (some l) ≡ ok left)
      × (bytes_builder_build (some r) ≡ ok right)
      × (bytes_builder_build (some both) ≡ ok (left ++ right))
      × (length (left ++ right) ≡ both.len)
unfolding bytes_builder_append
bytes_builder_append_lem l r p q fits =
    let both = joined l r in
    let valid = joined-IsValid l r p q fits in
    let spliced : contents both.chunks ≡ contents l.chunks ++ contents r.chunks =
      ap contents (chunks-joined l r) ∙ contents-append l.chunks r.chunks in
    (
      both,
      contents l.chunks,
      contents r.chunks,
      refl,
      valid,
      built l p,
      built r q,
      built both valid ∙ ap ok spliced,
      ap length (sym spliced) ∙ (length-contents both.chunks ∙ sym valid.filled),
    )

-- A builder of a Bytes value, the empty one too, is well formed and builds the value.
pub bytes_builder_bytes_lem :
    (value : List ℕ)
    → (b : BuilderVal) × (bytes_builder_bytes (some value) ≡ ok b)
      × IsValid b
      × (bytes_builder_build (some b) ≡ ok value)
unfolding bytes_builder_bytes AllPresent total contents
bytes_builder_bytes_lem [] =
    let b : BuilderVal = record { len = 0; chunks = [] } in
    let valid : IsValid b = record { present = tt; filled = refl } in
    (b, refl, valid, built b valid)
bytes_builder_bytes_lem (x ∷ xs) =
    let b : BuilderVal = record { len = length (x ∷ xs); chunks = some (x ∷ xs) ∷ [] } in
    let more : (length (x ∷ xs) == 0) ≡ false = ground arith in
    let valid : IsValid b = record { present = tt; filled = omega arith } in
    (b, rw more, valid, built b valid ∙ ap ok (append-nil (x ∷ xs)))

-- ===== src/Channel/Queue.antt =====
-- What a channel holds, its parked senders' values included, and what its fields keep to.
use sprout_lang.Prelude.{ℕ, false, ◌==◌, List, [], ◌∷◌, ◌++◌, ◌≡◌, refl, ap, ◌⊎◌, arith}
use sprout_lang.Channel.{Chan, Task, System, set}
use sprout_lang.Channel.Ring.{items, IsRing}

unfoldable pub Absent : ℕ → List ℕ → Type 0
Absent t [] = Unit
Absent t (u ∷ us) = ((u == t) ≡ false) × Absent t us

unfoldable pub Distinct : List ℕ → Type 0
Distinct [] = Unit
Distinct (t ∷ ts) = Absent t ts × Distinct ts

unfoldable pub pending : (ℕ → Task) → List ℕ → List ℕ
pending tasks [] = []
pending tasks (t ∷ ts) = (tasks t).chan_pending ∷ pending tasks ts

-- The values of a channel in the order they were sent: the buffered ones, then those that the
-- parked senders hold.
unfoldable pub contents : ℕ → System → List ℕ
contents c s = items (s.chans c) ++ pending s.tasks ((s.chans c).senders)

-- A sender is parked only where the buffer is full, and a receiver or a selector only where there
-- is neither a value nor a sender.
pub record IsValid (ch : Chan) : Type 0 where
  pub ring : IsRing ch
  pub full : (ch.senders ≡ []) ⊎ (ch.count ≡ ch.cap)
  pub distinct : Distinct ch.senders
  pub starved : ((ch.receivers ≡ []) × (ch.selectors ≡ [])) ⊎ ((ch.count ≡ 0) × (ch.senders ≡ []))

-- A change of a task that is not parked there.
pub pending-set :
    (tasks : ℕ → Task) (t : ℕ) (k : Task) (ts : List ℕ)
    → Absent t ts
    → pending (set tasks t k) ts ≡ pending tasks ts
unfolding pending Absent
pending-set tasks t k [] h = refl
pending-set tasks t k (u ∷ us) (p, h) =
    rw p (ap (λ xs. (tasks u).chan_pending ∷ xs) (pending-set tasks t k us h))

pub pending-snoc :
    (tasks : ℕ → Task) (t : ℕ) (k : Task) (ts : List ℕ)
    → Absent t ts
    → pending (set tasks t k) (ts ++ (t ∷ [])) ≡ pending tasks ts ++ (k.chan_pending ∷ [])
unfolding pending Absent
pending-snoc tasks t k [] h = ground arith
pending-snoc tasks t k (u ∷ us) (p, h) =
    rw p (ap (λ xs. (tasks u).chan_pending ∷ xs) (pending-snoc tasks t k us h))

Absent-snoc : (u t : ℕ) (ts : List ℕ) → Absent u ts → (t == u) ≡ false → Absent u (ts ++ (t ∷ []))
unfolding Absent
Absent-snoc u t [] h k = (k, tt)
Absent-snoc u t (w ∷ ws) (p, h) k = (p, Absent-snoc u t ws h k)

apart_sym : (t u : ℕ) → (t == u) ≡ false → (u == t) ≡ false
apart_sym t u h = ground arith

pub Distinct-snoc : (t : ℕ) (ts : List ℕ) → Distinct ts → Absent t ts → Distinct (ts ++ (t ∷ []))
unfolding Distinct Absent
Distinct-snoc t [] d h = (tt, tt)
Distinct-snoc t (u ∷ us) (a, d) (p, h) =
    (Absent-snoc u t us a (apart_sym u t p), Distinct-snoc t us d h)

-- ===== src/Http/UrlText.antt =====
-- parse_http_url on the text of a URL.
use mathlib.Core.List.{append-nil}
use sprout_lang.Prelude.{
  ℕ, Bool, true, false, ◌==◌, if◌then◌else◌, none, some, List, [], ◌∷◌, ◌++◌, ◌≡◌, refl, sym, ap,
  ◌∙◌, arith,
}
use sprout_lang.Http.Scan.{All, take_while-append, drop_while-append}
use sprout_lang.Http.Headers.{no_bytes}
use sprout_lang.Http.Url.{
  HttpUrl, parsed_url, http_prefix, https_prefix, after_prefix, in_authority, last_colon,
  default_port, split_authority, parse_authority, parse_http_url,
}

abbrev scheme : Bool → List ℕ
scheme true = https_prefix
scheme false = http_prefix

abbrev port_text : HttpUrl → Bool → List ℕ
port_text url true = b':' ∷ url.port
port_text url false = []

-- A URL as it is written, its port only where the URL spells one.
unfoldable pub url_text : HttpUrl → List ℕ
url_text url = scheme url.use_tls ++ ((url.host ++ port_text url url.explicit_port) ++ url.path)

abbrev pub not_colon : ℕ → Bool
not_colon c = if c == b':' then false else true

abbrev pub PortFits : HttpUrl → Bool → Type 0
PortFits url true = All in_authority url.port × All not_colon url.port × (no_bytes url.port ≡ false)
PortFits url false = All not_colon url.host × (url.port ≡ default_port url.use_tls)

-- A host that the authority ends behind, a port that is spelled or the scheme's own, and a path
-- from a slash on. A host in front of a spelled port may have colons.
pub record IsUrl (url : HttpUrl) : Type 0 where
  pub has_host : no_bytes url.host ≡ false
  pub host_fits : All in_authority url.host
  pub port_fits : PortFits url url.explicit_port
  pub rooted : (rest : List ℕ) × (url.path ≡ b'/' ∷ rest)

All-append : (p : ℕ → Bool) (s t : List ℕ) → All p s → All p t → All p (s ++ t)
All-append p [] t a b = b
All-append p (c ∷ s) t (e, a) b = (e, All-append p s t a b)

no_colon : (s : List ℕ) → All not_colon s → last_colon s ≡ none
unfolding last_colon
no_colon [] a = refl
no_colon (c ∷ s) (e, a) = let other : (c == b':') ≡ false = ground arith in rw (no_colon s a, other)

port_colon :
    (host port : List ℕ)
    → All not_colon port
    → last_colon (host ++ (b':' ∷ port)) ≡ some (host, port)
unfolding last_colon
port_colon [] port a = rw (no_colon port a)
port_colon (c ∷ host) port a = rw (port_colon host port a)

after_scheme :
    (tls : Bool) (rest : List ℕ) → parse_http_url (scheme tls ++ rest) ≡ parse_authority tls rest
unfolding parse_http_url after_prefix
after_scheme true rest = refl
after_scheme false rest = refl

no_bytes-append : (s t : List ℕ) → no_bytes s ≡ false → no_bytes (s ++ t) ≡ false
no_bytes-append [] t h = cc h
no_bytes-append (c ∷ s) t h = refl

authority_of :
    (tls : Bool) (authority rest : List ℕ)
    → All in_authority authority
    → no_bytes authority ≡ false
    → parse_authority tls (authority ++ (b'/' ∷ rest))
      ≡ split_authority tls authority (b'/' ∷ rest) (last_colon authority)
unfolding parse_authority
authority_of tls authority rest a some_host = rw (
  take_while-append in_authority authority (b'/' ∷ rest) a refl,
  drop_while-append in_authority authority (b'/' ∷ rest) a refl,
  some_host,
)

-- What the authority of a URL is split into.
split_of :
    (url : HttpUrl) (explicit : Bool) (rest : List ℕ)
    → no_bytes url.host ≡ false
    → PortFits url explicit
    → split_authority url.use_tls
        (url.host ++ port_text url explicit)
        (b'/' ∷ rest)
        (last_colon (url.host ++ port_text url explicit))
      ≡ parsed_url (record url { path = b'/' ∷ rest; explicit_port = explicit })
unfolding split_authority
split_of url true rest has_host (_, no_colons, some_port) =
    rw (port_colon url.host url.port no_colons, has_host, some_port)
split_of url false rest has_host (no_colons, default) =
    rw (append-nil url.host, no_colon url.host no_colons, default)

port_text-All :
    (url : HttpUrl) (explicit : Bool)
    → PortFits url explicit
    → All in_authority (port_text url explicit)
port_text-All url true h = (refl, h.0)
port_text-All url false h = tt

-- A well-formed URL that is written out is parsed into its parts again.
pub parse_http_url-url_text :
    (url : HttpUrl) → IsUrl url → parse_http_url (url_text url) ≡ parsed_url url
unfolding url_text
parse_http_url-url_text url h =
    let (rest, slash) = h.rooted in
    let authority : List ℕ = url.host ++ port_text url url.explicit_port in
    let fits =
      All-append in_authority url.host (port_text url url.explicit_port) h.host_fits
        (port_text-All url url.explicit_port h.port_fits) in
    after_scheme url.use_tls (authority ++ url.path)
    ∙ (ap (λ p. parse_authority url.use_tls (authority ++ p)) slash
        ∙ (authority_of url.use_tls authority rest fits
              (no_bytes-append url.host (port_text url url.explicit_port) h.has_host)
            ∙ (split_of url url.explicit_port rest h.has_host h.port_fits
                ∙ ap (λ p. parsed_url (record url { path = p })) (sym slash))))

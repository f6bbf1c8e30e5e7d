-- ===== src/Identity/Email.antt =====
-- `normalize_email` (src/umbral/domain/identity/email.py).
use Prim.Native.Char.{code}
use Prim.Native.String.{String}
use umbral.Prelude.{
  ℕ, Bool, false, ◌&&◌, ◌||◌, not, List, [], ◌∷◌, Option, none, some, ◌==◌, nat_eq, string_eq, ltb,
  length, if◌then◌else◌, contains, all,
}
use umbral.Text.{PyText, codes}

-- `" \t\r\n\f\v"`
unfoldable pub is_ascii_space : ℕ → Bool
is_ascii_space c = contains c (32 ∷ 9 ∷ 13 ∷ 10 ∷ 12 ∷ 11 ∷ [])

strip_start : String → String
unfolding is_ascii_space
strip_start String.[] = String.[]
strip_start (String.◌∷◌ c s) =
    let rest = strip_start s in if is_ascii_space (code c) then rest else String.◌∷◌ c s

strip_end : String → String
unfolding is_ascii_space
strip_end String.[] = String.[]
strip_end (String.◌∷◌ c s) =
    let rest = strip_end s in
    if rest == "" && is_ascii_space (code c) then "" else String.◌∷◌ c rest

module _ (t : PyText) where
  -- `[^@\s<>]`
  unfoldable pub is_plain : ℕ → Bool
  is_plain c = not ((c == b'@' || t.is_space c) || (c == b'<' || c == b'>'))

  -- A dot with a character after it.
  has_inner_dot : List ℕ → Bool
  has_inner_dot [] = false
  has_inner_dot (c ∷ []) = false
  has_inner_dot (c ∷ d ∷ rest) = let later = has_inner_dot (d ∷ rest) in c == b'.' || later

  -- `[^@\s<>]+\.[^@\s<>]+`
  is_domain : List ℕ → Bool
  unfolding is_plain has_inner_dot
  is_domain [] = false
  is_domain (c ∷ rest) = all is_plain (c ∷ rest) && has_inner_dot rest

  in_local : List ℕ → Bool
  unfolding is_plain is_domain
  in_local [] = false
  in_local (c ∷ rest) =
      let later = in_local rest in if c == b'@' then is_domain rest else is_plain c && later

  -- `_EMAIL`
  unfoldable pub is_email : List ℕ → Bool
  unfolding is_plain in_local
  is_email [] = false
  is_email (c ∷ rest) = is_plain c && in_local rest

  has_two_dots : List ℕ → Bool
  has_two_dots [] = false
  has_two_dots (c ∷ []) = false
  has_two_dots (c ∷ d ∷ rest) =
      let later = has_two_dots (d ∷ rest) in (c == b'.' && d == b'.') || later

  starts_with_dot : List ℕ → Bool
  starts_with_dot [] = false
  starts_with_dot (c ∷ rest) = c == b'.'

  ends_with_dot : List ℕ → Bool
  ends_with_dot [] = false
  ends_with_dot (c ∷ []) = c == b'.'
  ends_with_dot (c ∷ d ∷ rest) = ends_with_dot (d ∷ rest)

  -- `normalize_email(raw).value`, or `none` where it raises.
  unfoldable pub normalize_email : String → Option String
  unfolding is_email has_two_dots starts_with_dot ends_with_dot strip_start strip_end
  normalize_email raw =
      let value = t.lower (strip_end (strip_start raw)) in
      let cs = codes value in
      if ((not (is_email cs) || has_two_dots cs) || (starts_with_dot cs || ends_with_dot cs))
        || (ltb (length cs) 3 || ltb 320 (length cs))
      then none
      else some value

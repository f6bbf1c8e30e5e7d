-- ===== src/Text.antt =====
-- Texts as the program reads them: code points, searches written in the source, and the methods of
-- Python's `str` that are not in the repository, which are a parameter with their documented laws.
use Prim.Native.Char.{code}
use Prim.Native.String.{String}
use umbral.Prelude.{
  ℕ, ◌≡◌, Bool, true, false, ◌&&◌, ◌||◌, List, [], ◌∷◌, arith, leb, ◌==◌, nat_eq, any, all,
}

-- The code points of a text.
abbrev pub codes : String → List ℕ
codes String.[] = []
codes (String.◌∷◌ c s) = code c ∷ codes s

unfoldable pub is_digit : ℕ → Bool
is_digit c = leb b'0' c && leb c b'9'

unfoldable pub is_lower : ℕ → Bool
is_lower c = leb b'a' c && leb c b'z'

unfoldable pub is_upper : ℕ → Bool
is_upper c = leb b'A' c && leb c b'Z'

-- `[a-z0-9]`
unfoldable pub is_word : ℕ → Bool
unfolding is_digit is_lower
is_word c = is_lower c || is_digit c

-- `[A-Za-z0-9]`
unfoldable pub is_alnum : ℕ → Bool
unfolding is_word is_upper
is_alnum c = is_word c || is_upper c

-- Printable ASCII other than the space.
unfoldable pub is_graphic : ℕ → Bool
is_graphic c = leb 33 c && leb c 126

starts_with : List ℕ → List ℕ → Bool
starts_with [] s = true
starts_with (c ∷ p) [] = false
starts_with (c ∷ p) (d ∷ s) = c == d && starts_with p s

-- `marker in text`
unfoldable pub occurs_in : List ℕ → List ℕ → Bool
unfolding starts_with
occurs_in p [] = starts_with p []
occurs_in p (c ∷ s) = starts_with p (c ∷ s) || occurs_in p s

-- `str.strip`, `str.lower` and `str.isspace`.
pub record PyText : Type 0 where
  pub strip : String → String
  pub lower : String → String
  pub is_space : ℕ → Bool
  -- strip() removes white space from the ends and nothing else
  pub strip_of_no_space : (s : String) → any is_space (codes s) ≡ false → strip s ≡ s
  -- lower() leaves ASCII text without capitals as it is
  pub lower_of_no_upper :
      (s : String) → all is_graphic (codes s) ≡ true → any is_upper (codes s) ≡ false → lower s ≡ s
  -- no printable ASCII character but the space is white space
  pub graphic_no_space : (c : ℕ) → is_graphic c ≡ true → is_space c ≡ false

module _ (t : PyText) where
  pub graphic_text_no_space : (s : List ℕ) → all is_graphic s ≡ true → any t.is_space s ≡ false
  unfolding any all
  graphic_text_no_space [] h = ground arith
  graphic_text_no_space (c ∷ s) h = ground (arith, t.graphic_no_space c, graphic_text_no_space s)

  pub strip_of_graphic : (s : String) → all is_graphic (codes s) ≡ true → t.strip s ≡ s
  strip_of_graphic s h = t.strip_of_no_space s (graphic_text_no_space (codes s) h)

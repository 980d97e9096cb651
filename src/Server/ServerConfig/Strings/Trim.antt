-- ===== src/Server/ServerConfig/Strings/Trim.antt =====
-- What `trim` and `unquote` keep.
use console_calculator.Prelude.{ℕ, ◌≡◌, refl, sym, false, [], ◌∷◌, ◌++◌, All, subst, All-append}
use mathlib.Core.List.{reverse, reverse-cons, reverse-append, reverse-reverse}
use console_calculator.Text.{Text}
use console_calculator.Server.ServerConfig.Strings.{
  is_blank, erase_blanks, trim, unsnoc, strip_quotes, unquote,
}

abbrev pub IsSolid : ℕ → Type 0
IsSolid c = is_blank c ≡ false

erase_blanks_solid : (c : ℕ) (s : Text) → IsSolid c → erase_blanks (c ∷ s) ≡ c ∷ s
unfolding erase_blanks
erase_blanks_solid c s h = rw h

-- A text that starts and ends with solid characters is kept.
pub trim_solid :
    (c d : ℕ) (s : Text) → IsSolid c → IsSolid d → trim (c ∷ s ++ d ∷ []) ≡ c ∷ s ++ d ∷ []
unfolding trim
trim_solid c d s hc hd =
    let turned : reverse (c ∷ s ++ d ∷ []) ≡ d ∷ reverse (c ∷ s) =
      reverse-append (c ∷ s) (d ∷ []) in
    rw (
      erase_blanks_solid c (s ++ d ∷ []) hc,
      turned,
      erase_blanks_solid d (reverse (c ∷ s)) hd,
      ← turned,
      reverse-reverse,
    )

erase_blanks-All : (s : Text) → All IsSolid s → erase_blanks s ≡ s
unfolding erase_blanks
erase_blanks-All [] h = refl
erase_blanks-All (c ∷ s) h = erase_blanks_solid c s (h.0)

reverse-All : (s : Text) → All IsSolid s → All IsSolid (reverse s)
reverse-All [] h = tt
reverse-All (c ∷ s) h =
    subst (All IsSolid) (sym (reverse-cons c s))
      (All-append IsSolid (reverse s) (c ∷ []) (reverse-All s (h.1)) (h.0, tt))

pub trim-All : (s : Text) → All IsSolid s → trim s ≡ s
unfolding trim
trim-All s h =
    rw (erase_blanks-All s h, erase_blanks-All (reverse s) (reverse-All s h), reverse-reverse)

unsnoc-append : (d e : ℕ) (s : Text) → unsnoc d (s ++ e ∷ []) ≡ (d ∷ s, e)
unfolding unsnoc
unsnoc-append d e [] = refl
unsnoc-append d e (c ∷ s) = rw (unsnoc-append c e s)

-- Quotes are taken off, and what stands in them is kept, blanks and quotes included.
pub unquote_quoted : (v : Text) → unquote (34 ∷ v ++ 34 ∷ []) ≡ v
unfolding unquote strip_quotes unsnoc
unquote_quoted [] = rw (trim_solid 34 34 [] refl refl)
unquote_quoted (d ∷ v) = rw (trim_solid 34 34 (d ∷ v) refl refl, unsnoc-append d 34 v)

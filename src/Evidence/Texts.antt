-- ===== src/Evidence/Texts.antt =====
-- The texts that app/evidence/services.py makes and reads: LIKE patterns with `ESCAPE '!'`, and
-- hashes as they are pasted.
use forge_x.Shared.{
  ◌==◌, if◌then◌else◌, Bool-cases, append_assoc, ℕ, ◌≡◌, refl, sym, ap, ◌∙◌, inl, inr, List, [],
  ◌∷◌, ◌++◌, map, arith,
}
use forge_x.Shared.Text.{Text, codes}

-- `text.replace(c, with)` for one character c
unfoldable pub replace : ℕ → Text → Text → Text
replace c new [] = []
replace c new (d ∷ t) = (if d == c then new else d ∷ []) ++ replace c new t

-- `like_pattern`
unfoldable pub like_pattern : Text → Text
unfolding replace
like_pattern text =
    codes "%"
    ++ (replace b'_' (codes "!_") (replace b'%' (codes "!%") (replace b'!' (codes "!!") text))
        ++ codes "%")

-- The parts of a LIKE pattern: any text, any character, or one given character
pub data LikePart : Type 0 where
  any_text any_character : LikePart
  exactly : ℕ → LikePart

-- How MySQL documents the parts of a pattern under `ESCAPE '!'`
unfoldable pub like_parts : Text → List LikePart
like_parts [] = []
like_parts (c ∷ []) =
    (if c == b'%' then any_text else (if c == b'_' then any_character else exactly c)) ∷ []
like_parts (c ∷ d ∷ t) =
    let escaped = like_parts t in
    let plain = like_parts (d ∷ t) in
    if c == b'!'
    then exactly d ∷ escaped
    else (if c == b'%'
        then any_text ∷ plain
        else (if c == b'_' then any_character ∷ plain else exactly c ∷ plain))

replace-append :
    (c : ℕ) (new s t : Text) → replace c new (s ++ t) ≡ replace c new s ++ replace c new t
unfolding replace
replace-append c new [] t = refl
replace-append c new (d ∷ s) t = elim (Bool-cases (d == c)) [
  | inl e ↦
      rw (e, replace-append c new s t) (sym (append_assoc new (replace c new s) (replace c new t)))
  | inr e ↦ rw (e, replace-append c new s t) refl
]

-- What the three replacements make of one character
abbrev escape_one : ℕ → Text
escape_one c =
    if c == b'!'
    then codes "!!"
    else (if c == b'%' then codes "!%" else (if c == b'_' then codes "!_" else c ∷ []))

like_parts-escaped : (c : ℕ) (t : Text) → like_parts (escape_one c ++ t) ≡ exactly c ∷ like_parts t
unfolding like_parts codes
like_parts-escaped c [] = ground (arith)
like_parts-escaped c (d ∷ t) = ground (arith)

abbrev escaped : Text → Text
escaped t = replace b'_' (codes "!_") (replace b'%' (codes "!%") (replace b'!' (codes "!!") t))

escaped_next : (c : ℕ) (t : Text) → escaped (c ∷ t) ≡ escape_one c ++ escaped t
unfolding replace codes
escaped_next c t =
    let first = if c == b'!' then codes "!!" else c ∷ [] in
    let rest = replace b'!' (codes "!!") t in
    let second = replace b'%' (codes "!%") first in
    ground (
      arith,
      replace-append b'%' (codes "!%") first rest,
      replace-append b'_' (codes "!_") second (replace b'%' (codes "!%") rest),
    )

like_parts-any : (t : Text) → like_parts (b'%' ∷ t) ≡ any_text ∷ like_parts t
unfolding like_parts
like_parts-any [] = refl
like_parts-any (d ∷ t) = refl

like_parts-all : (t : Text) → like_parts (escaped t ++ codes "%") ≡ map exactly t ++ any_text ∷ []
unfolding codes replace like_parts
like_parts-all [] = refl
like_parts-all (c ∷ t) =
    let next = escaped_next c t in
    let parts = like_parts-escaped c (escaped t ++ codes "%") in
    let assoc = append_assoc (escape_one c) (escaped t) (codes "%") in
    ap (λ u. like_parts (u ++ codes "%")) next
    ∙ ap like_parts assoc
    ∙ parts
    ∙ ap (λ l. exactly c ∷ l) (like_parts-all t)

-- Whatever is searched for, its pattern is any text, then exactly its characters, then any text.
pub like_pattern-parts :
    (t : Text) → like_parts (like_pattern t) ≡ any_text ∷ (map exactly t ++ any_text ∷ [])
unfolding like_pattern codes
like_pattern-parts t =
    like_parts-any (escaped t ++ codes "%") ∙ ap (λ l. any_text ∷ l) (like_parts-all t)

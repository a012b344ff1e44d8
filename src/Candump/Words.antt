-- ===== src/Candump/Words.antt =====
-- The words of a text, which spaces and line ends separate.
use sockcan.Prelude.{ℕ, zero, suc, ◌-◌, ◌≢◌, List, [], ◌∷◌, ◌++◌, ◌≡◌, refl, ap, ◌∙◌, arith}
use sockcan.Prelude.{ltb, true, append_assoc, if◌then◌else◌, All, Text, length, replicate, join}
use sockcan.Candump.{pad}
use sockcan.Candump.Hex.{IsInk}

abbrev add_word : Text → List Text → List Text
add_word [] ws = ws
add_word (c ∷ w) ws = (c ∷ w) ∷ ws

-- What there is of a word at the start, and the words behind it.
unfoldable pub split_word : Text → Text × List Text
split_word [] = ([], [])
split_word (c ∷ t) =
    let r = split_word t in if ltb c 33 then ([], add_word r.0 r.1) else (c ∷ r.0, r.1)

unfoldable pub words : Text → List Text
unfolding split_word
words t = let r = split_word t in add_word r.0 r.1

pub words-space : (c : ℕ) (t : Text) → ltb c 33 ≡ true → words (c ∷ t) ≡ words t
unfolding words
words-space c t space = rw (space, split_word) refl

pub words-spaces : (k : ℕ) (t : Text) → words (replicate k 32 ++ t) ≡ words t
words-spaces zero t = refl
words-spaces (suc k) t = words-space 32 (replicate k 32 ++ t) refl ∙ words-spaces k t

split_word-word :
    (w : Text) (c : ℕ) (t : Text)
    → All IsInk w
    → ltb c 33 ≡ true
    → split_word (w ++ (c ∷ t)) ≡ (w, words t)
unfolding split_word words
split_word-word [] c t ink space = rw (space, split_word) refl
split_word-word (d ∷ w) c t ink space =
    rw (split_word-word w c t ink.1 space, split_word) (ground (arith, ink.0))

-- A word that a space ends is the first.
pub words-word :
    (w : Text) (c : ℕ) (t : Text)
    → All IsInk w
    → w ≢ []
    → ltb c 33 ≡ true
    → words (w ++ (c ∷ t)) ≡ w ∷ words t
unfolding words
words-word [] c t ink some_text space = absurd (some_text refl)
words-word (d ∷ w) c t ink some_text space =
    ap (λ r. add_word r.0 r.1) (split_word-word (d ∷ w) c t ink space)

-- The same with spaces on its left.
pub words-pad :
    (width : ℕ) (w : Text) (c : ℕ) (t : Text)
    → All IsInk w
    → w ≢ []
    → ltb c 33 ≡ true
    → words (pad 32 width w ++ (c ∷ t)) ≡ w ∷ words t
words-pad width w c t ink some_text space =
    ap words (append_assoc (replicate (width - length w) 32) w (c ∷ t))
    ∙ words-spaces (width - length w) (w ++ (c ∷ t))
    ∙ words-word w c t ink some_text space

-- Words that are joined by spaces.
pub words-join :
    (ws : List Text)
    → All (λ w. All IsInk w × (w ≢ [])) ws
    → words (join (32 ∷ []) ws ++ (10 ∷ [])) ≡ ws
unfolding join words
words-join [] h = words-space 10 [] refl
words-join (w ∷ []) h = words-word w 10 [] h.0.0 h.0.1 refl
words-join (w ∷ (v ∷ ws)) h =
    ap words (append_assoc w (32 ∷ join (32 ∷ []) (v ∷ ws)) (10 ∷ []))
    ∙ words-word w 32 (join (32 ∷ []) (v ∷ ws) ++ (10 ∷ [])) h.0.0 h.0.1 refl
    ∙ ap (◌∷◌ w) (words-join (v ∷ ws) h.1)

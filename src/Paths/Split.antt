-- ===== src/Paths/Split.antt =====
-- Split and Join undo one another; what trimming keeps out of a text.
use selective_mirror.Base.{
  ℕ, ◌≡◌, refl, ap, ◌∙◌, Bool, true, false, ◌||◌, List, [], ◌∷◌, ◌++◌, arith, ◌==◌, All, Text,
}
use selective_mirror.Paths.{split_on, join_with, contains_byte, trim_left, trim_right, piece}
use mathlib.Core.List.{reverse, reverse-cons}

pub contains_byte-append :
    (c : ℕ) (s t : Text) → contains_byte c (s ++ t) ≡ (contains_byte c s || contains_byte c t)
unfolding contains_byte
contains_byte-append c [] t = refl
contains_byte-append c (x ∷ s) t = ground (arith, contains_byte-append c s t)

pub contains_byte-reverse : (c : ℕ) (s : Text) → contains_byte c (reverse s) ≡ contains_byte c s
unfolding contains_byte
contains_byte-reverse c [] = refl
contains_byte-reverse c (x ∷ s) =
    ap (contains_byte c) (reverse-cons x s)
    ∙ ground (arith, contains_byte-append c (reverse s) (x ∷ []), contains_byte-reverse c s)

pub trim_left-lacks :
    (p : ℕ → Bool) (c : ℕ) (s : Text)
    → contains_byte c s ≡ false
    → contains_byte c (trim_left p s) ≡ false
unfolding contains_byte trim_left
trim_left-lacks p c [] h = refl
trim_left-lacks p c (x ∷ s) h = ground (arith, trim_left-lacks p c s)

pub trim_right-lacks :
    (p : ℕ → Bool) (c : ℕ) (s : Text)
    → contains_byte c s ≡ false
    → contains_byte c (trim_right p s) ≡ false
unfolding trim_right
trim_right-lacks p c s h =
    contains_byte-reverse c (trim_left p (reverse s))
    ∙ trim_left-lacks p c (reverse s) (contains_byte-reverse c s ∙ h)

piece-lacks :
    (c x : ℕ) (b : Bool) (ps : List Text)
    → (b ≡ false → (x == c) ≡ false)
    → All (λ p. contains_byte c p ≡ false) ps
    → All (λ p. contains_byte c p ≡ false) (piece b x ps)
unfolding contains_byte
piece-lacks c x true ps h all = (refl, all)
piece-lacks c x false [] h all = (ground (arith, h refl), tt)
piece-lacks c x false (p ∷ ps) h (lacks, all) = (ground (arith, h refl), all)

-- Each piece of a split is free of the separator.
pub split_on-lacks : (c : ℕ) (s : Text) → All (λ p. contains_byte c p ≡ false) (split_on c s)
unfolding split_on contains_byte
split_on-lacks c [] = (refl, tt)
split_on-lacks c (x ∷ s) = piece-lacks c x (x == c) (split_on c s) (λ h. h) (split_on-lacks c s)

split_on-piece :
    (c : ℕ) (p rest : Text)
    → contains_byte c p ≡ false
    → split_on c (p ++ (c ∷ rest)) ≡ p ∷ split_on c rest
unfolding split_on contains_byte
split_on-piece c [] rest h = ground arith
split_on-piece c (x ∷ p) rest h =
    let miss : (x == c) ≡ false = ground arith in
    let lacks : contains_byte c p ≡ false = ground arith in rw (miss, split_on-piece c p rest lacks)

split_on-whole : (c : ℕ) (p : Text) → contains_byte c p ≡ false → split_on c p ≡ p ∷ []
unfolding split_on contains_byte
split_on-whole c [] h = refl
split_on-whole c (x ∷ p) h =
    let miss : (x == c) ≡ false = ground arith in
    let lacks : contains_byte c p ≡ false = ground arith in rw (miss, split_on-whole c p lacks)

-- Splitting what was joined gives the pieces back, if none of them holds the separator.
pub split_on-join_with :
    (c : ℕ) (p : Text) (ps : List Text)
    → All (λ q. contains_byte c q ≡ false) (p ∷ ps)
    → split_on c (join_with c (p ∷ ps)) ≡ p ∷ ps
unfolding join_with
split_on-join_with c p [] (h, hs) = split_on-whole c p h
split_on-join_with c p (q ∷ ps) (h, hs) =
    split_on-piece c p (join_with c (q ∷ ps)) h ∙ ap (λ xs. p ∷ xs) (split_on-join_with c q ps hs)

-- ===== src/Tests/Splitter.antt =====
-- A splitter of texts.
use nestdaq.Base.{
  ℕ, Bool, subst, append_nil, ◌≡◌, refl, ap, ◌∙◌, true, false, List, [], ◌∷◌, ◌++◌, All, arith,
  if◌then◌else◌,
}
use nestdaq.Text.{Text, join}
use nestdaq.Text.Search.{has}
use nestdaq.Text.Search.Skip.{Clear}
use nestdaq.Text.Split.{Algorithm, SplitLaws, CompressLaws, Piece, spaces}

abbrev push : ℕ → List Text → List Text
push c [] = []
push c (t ∷ ts) = (c ∷ t) ∷ ts

unfoldable pub cut : Text → Text → List Text
cut [] chars = [] ∷ []
cut (c ∷ t) chars = let rest = cut t chars in if has chars c then [] ∷ rest else push c rest

at_mark : Text → Text → Bool
unfolding has
at_mark [] chars = false
at_mark (c ∷ t) chars = has chars c

-- Marks that follow each other count for one.
unfoldable pub cut_compress : Text → Text → List Text
unfolding at_mark
cut_compress [] chars = [] ∷ []
cut_compress (c ∷ t) chars =
    let rest = cut_compress t chars in
    if has chars c then if at_mark t chars then rest else [] ∷ rest else push c rest

trim_left : Text → Text
trim_left [] = []
trim_left (c ∷ t) = let rest = trim_left t in if has spaces c then rest else c ∷ t

trim_right : Text → Text
trim_right [] = []
trim_right (c ∷ t) = elim (trim_right t) [
  | [] ↦ if has spaces c then [] else c ∷ []
  | d ∷ u ↦ c ∷ d ∷ u
]

unfoldable pub trim_both : Text → Text
unfolding trim_left trim_right
trim_both t = trim_right (trim_left t)

abbrev pub splitter : Algorithm
splitter = record { split = cut; split_compress = cut_compress; trim = trim_both }

cut-last : (c : ℕ) (t : Text) → Clear (c ∷ []) t → cut t (c ∷ []) ≡ t ∷ []
unfolding cut
cut-last c [] h = refl
cut-last c (d ∷ t) (e, h) = rw e (ap (push d) (cut-last c t h))

cut-front :
    (c : ℕ) (t r : Text) → Clear (c ∷ []) t → cut (t ++ (c ∷ r)) (c ∷ []) ≡ t ∷ cut r (c ∷ [])
unfolding cut has
cut-front c [] r h = ground arith
cut-front c (d ∷ t) r (e, h) = rw e (ap (push d) (cut-front c t r h))

cut-join :
    (c : ℕ) (t : Text) (ts : List Text)
    → All (Clear (c ∷ [])) (t ∷ ts)
    → cut (join (t ∷ ts) (c ∷ [])) (c ∷ []) ≡ t ∷ ts
unfolding join
cut-join c t [] (h, _) = cut-last c t h
cut-join c t (u ∷ us) (h, hs) =
    cut-front c t (join (u ∷ us) (c ∷ [])) h ∙ ap (λ x. t ∷ x) (cut-join c u us hs)

pub splitter-SplitLaws : SplitLaws splitter
splitter-SplitLaws = record { split-join = cut-join }

trim_left-Clear : (t : Text) → Clear spaces t → trim_left t ≡ t
unfolding trim_left
trim_left-Clear [] h = refl
trim_left-Clear (c ∷ t) (e, h) = rw e refl

trim_right-Clear : (t : Text) → Clear spaces t → trim_right t ≡ t
unfolding trim_right
trim_right-Clear [] h = refl
trim_right-Clear (c ∷ t) (e, h) = go t (trim_right-Clear t h)
  where
    go : (u : Text) → trim_right t ≡ u → trim_right (c ∷ t) ≡ c ∷ u
    go [] p = rw (p, trim_right) (rw e refl)
    go (d ∷ u) p = rw (p, trim_right) refl

compress-last : (chars t : Text) → Clear chars t → cut_compress t chars ≡ t ∷ []
unfolding cut_compress
compress-last chars [] h = refl
compress-last chars (d ∷ t) (e, h) = rw e (ap (push d) (compress-last chars t h))

compress-front :
    (chars : Text) (c : ℕ) (t r : Text)
    → has chars c ≡ true
    → Clear chars t
    → at_mark r chars ≡ false
    → cut_compress (t ++ (c ∷ r)) chars ≡ t ∷ cut_compress r chars
unfolding cut_compress
compress-front chars c [] r m h n = rw (m, n) refl
compress-front chars c (d ∷ t) r m (e, h) n = rw e (ap (push d) (compress-front chars c t r m h n))

no_mark : (chars : Text) (t : Text) (r : Text) → Piece chars t → at_mark (t ++ r) chars ≡ false
unfolding at_mark
no_mark chars [] r (ne, h) = absurd (ne refl)
no_mark chars (d ∷ t) r (ne, (e, h)) = e

no_mark-join :
    (chars : Text) (c : ℕ) (t : Text) (ts : List Text)
    → Piece chars t
    → at_mark (join (t ∷ ts) (c ∷ [])) chars ≡ false
unfolding join
no_mark-join chars c t [] p =
    subst (λ u. at_mark u chars ≡ false) (append_nil t) (no_mark chars t [] p)
no_mark-join chars c t (u ∷ us) p = no_mark chars t (c ∷ join (u ∷ us) (c ∷ [])) p

compress-join :
    (chars : Text) (c : ℕ) (t : Text) (ts : List Text)
    → has chars c ≡ true
    → All (Piece chars) (t ∷ ts)
    → cut_compress (join (t ∷ ts) (c ∷ [])) chars ≡ t ∷ ts
unfolding join
compress-join chars c t [] m (p, _) = compress-last chars t p.1
compress-join chars c t (u ∷ us) m (p, (q, hs)) =
    compress-front chars c t (join (u ∷ us) (c ∷ [])) m p.1 (no_mark-join chars c u us q)
    ∙ ap (λ x. t ∷ x) (compress-join chars c u us m (q, hs))

pub splitter-CompressLaws : CompressLaws splitter
unfolding trim_both
splitter-CompressLaws = record {
  split_compress-join = compress-join;
  trim-Clear = λ t h. ap trim_right (trim_left-Clear t h) ∙ trim_right-Clear t h;
}

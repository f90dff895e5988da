-- ===== src/Topology/Link/Parse.antt =====
-- ReadLinkProperty (plugins/TopologyConfig.cxx) on the keys that are put together for it.
use nestdaq.Base.{
  ℕ, suc, ◌+◌, ◌<◌, ◌≤◌, ◌≡◌, refl, sym, ap, ◌∙◌, true, false, [], ◌∷◌, ◌++◌, some, arith, ◌==◌,
  length, length-append, append_assoc, append_nil, if◌then◌else◌, Bool-cases, inl, inr,
}
use nestdaq.Text.{Text, codes, text_eq}
use nestdaq.Text.Search.{
  npos, size_suc, size_sub, has, first_of, find_first_of, last_of, find_last_of, substr,
}
use nestdaq.Text.Search.Skip.{
  Clear, first_of-skip, first_of-other, first_of-hit, last_of-skip, last_of-other, last_of-hit,
  last_of-past, substr-part, substr-rest, size_suc-small, size_sub-small,
}
use nestdaq.Redis.{Redis}
use nestdaq.Topology.Channel.{Config}
use nestdaq.Topology.Link.{
  LinkProperty, Ends, no_link, link_prefix, split_pair, same_service, near_far, read_link_property,
}

-- The pair `service0:channel0,service1:channel1`, for a separator of one character.
abbrev pub pair : ℕ → Ends → Text
pair c e = e.service_l ++ (c ∷ (e.channel_l ++ (b',' ∷ (e.service_r ++ (c ∷ e.channel_r)))))

-- No name has the separator or a comma in it, the two differ, and the pair fits into a string.
pub record Plain (c : ℕ) (e : Ends) : Type 0 where
  pub service_l_sep : Clear (c ∷ []) e.service_l
  pub service_l_comma : Clear (codes ",") e.service_l
  pub channel_l_sep : Clear (c ∷ []) e.channel_l
  pub channel_l_comma : Clear (codes ",") e.channel_l
  pub service_r_sep : Clear (c ∷ []) e.service_r
  pub channel_r_sep : Clear (c ∷ []) e.channel_r
  pub apart : (c == b',') ≡ false
  pub fits : length (pair c e) < npos

has_self : (c : ℕ) → has (c ∷ []) c ≡ true
unfolding has
has_self c = ground arith

has-comma : (c : ℕ) → (c == b',') ≡ false → has (codes ",") c ≡ false
unfolding has
has-comma c h = ground arith

comma-other : (c : ℕ) → (c == b',') ≡ false → has (c ∷ []) b',' ≡ false
unfolding has
comma-other c h = ground arith

length-pair :
    (c : ℕ) (e : Ends)
    → length (pair c e)
      ≡ length e.service_l + length e.channel_l + length e.service_r + length e.channel_r + 3
length-pair c e = omega (
  arith,
  length-append e.service_l (c ∷ (e.channel_l ++ (b',' ∷ (e.service_r ++ (c ∷ e.channel_r))))),
  length-append e.channel_l (b',' ∷ (e.service_r ++ (c ∷ e.channel_r))),
  length-append e.service_r (c ∷ e.channel_r),
)

module _ (c : ℕ) (e : Ends) (p : Plain c e) where
  abbrev tail_r : Text
  tail_r = e.service_r ++ (c ∷ e.channel_r)

  abbrev tail_l : Text
  tail_l = e.channel_l ++ (b',' ∷ tail_r)

  abbrev comma : ℕ
  comma = suc (length e.service_l) + length e.channel_l

  abbrev second : ℕ
  second = suc comma + length e.service_r

  bound :
      length e.service_l + length e.channel_l + length e.service_r + length e.channel_r + 3 < npos
  bound = omega (arith, length-pair c e, p.fits)

  start : 0 + length e.service_l ≡ length e.service_l
  start = omega arith

  comma_at : find_first_of (pair c e) (codes ",") ≡ comma
  unfolding find_first_of
  comma_at =
      first_of-skip (codes ",") 0 e.service_l (c ∷ tail_l) p.service_l_comma
      ∙ ap (λ j. first_of (codes ",") j (c ∷ tail_l)) start
      ∙ first_of-other (codes ",") (length e.service_l) c tail_l (has-comma c p.apart)
      ∙ first_of-skip (codes ",") (suc (length e.service_l)) e.channel_l (b',' ∷ tail_r)
          p.channel_l_comma
      ∙ first_of-hit (codes ",") comma b',' tail_r (has_self b',')

  -- both searches up to the comma
  last_of-left :
      (pos : ℕ)
      → length e.service_l ≤ pos
      → find_last_of (pair c e) (c ∷ []) pos
        ≡ last_of (c ∷ []) pos (suc comma) (length e.service_l) tail_r
  unfolding find_last_of
  last_of-left pos le =
      last_of-skip (c ∷ []) pos 0 npos e.service_l (c ∷ tail_l) p.service_l_sep
      ∙ ap (λ j. last_of (c ∷ []) pos j npos (c ∷ tail_l)) start
      ∙ last_of-hit (c ∷ []) pos (length e.service_l) npos c tail_l le (has_self c)
      ∙ last_of-skip (c ∷ []) pos (suc (length e.service_l)) (length e.service_l) e.channel_l
          (b',' ∷ tail_r) p.channel_l_sep
      ∙ last_of-other (c ∷ []) pos comma (length e.service_l) b',' tail_r (comma-other c p.apart)

  first_sep_at : find_last_of (pair c e) (c ∷ []) comma ≡ length e.service_l
  first_sep_at = last_of-left _ (omega arith) ∙ last_of-past (c ∷ []) _ _ _ tail_r (omega arith)

  second_sep_at : find_last_of (pair c e) (c ∷ []) npos ≡ second
  unfolding last_of
  second_sep_at =
      last_of-left npos (omega (arith, bound))
      ∙ last_of-skip (c ∷ []) npos (suc comma) (length e.service_l) e.service_r (c ∷ e.channel_r)
          p.service_r_sep
      ∙ last_of-hit (c ∷ []) npos second (length e.service_l) c e.channel_r (omega (arith, bound))
          (has_self c)
      ∙ ap (λ t. last_of (c ∷ []) npos (suc second) second t) (sym (append_nil e.channel_r))
      ∙ last_of-skip (c ∷ []) npos (suc second) second e.channel_r [] p.channel_r_sep

  names_at :
      (substr (pair c e) 0 (length e.service_l) ≡ some e.service_l)
      × (substr (pair c e) (suc (length e.service_l)) (length e.channel_l) ≡ some e.channel_l)
      × (substr (pair c e) (suc comma) (length e.service_r) ≡ some e.service_r)
      × (substr (pair c e) (suc second) npos ≡ some e.channel_r)
  names_at = (
    substr-part [] e.service_l (c ∷ tail_l) refl refl refl,
    substr-part (e.service_l ++ (c ∷ [])) e.channel_l (b',' ∷ tail_r)
        (sym (append_assoc e.service_l (c ∷ []) tail_l))
        (omega (arith, length-append e.service_l (c ∷ []))) refl,
    substr-part (e.service_l ++ (c ∷ (e.channel_l ++ (b',' ∷ [])))) e.service_r (c ∷ e.channel_r)
        (sym (
          append_assoc e.service_l (c ∷ (e.channel_l ++ (b',' ∷ []))) tail_r
          ∙ ap (λ t. e.service_l ++ (c ∷ t)) (append_assoc e.channel_l (b',' ∷ []) tail_r)))
        (omega (
          arith,
          length-append e.service_l (c ∷ (e.channel_l ++ (b',' ∷ []))),
          length-append e.channel_l (b',' ∷ []),
        ))
        refl,
    substr-rest (e.service_l ++ (c ∷ (e.channel_l ++ (b',' ∷ (e.service_r ++ (c ∷ []))))))
        e.channel_r
        (sym (
          append_assoc e.service_l (c ∷ (e.channel_l ++ (b',' ∷ (e.service_r ++ (c ∷ [])))))
            e.channel_r
          ∙ ap (λ t. e.service_l ++ (c ∷ t))
              (append_assoc e.channel_l (b',' ∷ (e.service_r ++ (c ∷ []))) e.channel_r
                ∙ ap (λ t. e.channel_l ++ (b',' ∷ t))
                    (append_assoc e.service_r (c ∷ []) e.channel_r))))
        (omega (
          arith,
          length-append e.service_l (c ∷ (e.channel_l ++ (b',' ∷ (e.service_r ++ (c ∷ []))))),
          length-append e.channel_l (b',' ∷ (e.service_r ++ (c ∷ []))),
          length-append e.service_r (c ∷ []),
        ))
        (omega (arith, bound)),
  )

  split_pair-pair : split_pair (c ∷ []) (pair c e) ≡ some e
  unfolding split_pair
  split_pair-pair =
      let (sl, cl, sr, cr) = names_at in
      rw (comma_at, split_pair)
        (rw (first_sep_at, sl)
          (rw comma_at (
            rw (first_sep_at, after_first, channel_size, cl)
              (rw (comma_at, second_sep_at)
                (rw (after_comma, service_size, sr) (rw (second_sep_at, after_second, cr) refl))))))
    where
      after_first : size_suc (length e.service_l) ≡ suc (length e.service_l)
      after_first = size_suc-small _ (omega (arith, bound))

      after_comma : size_suc comma ≡ suc comma
      after_comma = size_suc-small _ (omega (arith, bound))

      after_second : size_suc second ≡ suc second
      after_second = size_suc-small _ (omega (arith, bound))

      channel_size : size_sub comma (suc (length e.service_l)) ≡ length e.channel_l
      channel_size = size_sub-small _ _ (omega arith) (omega (arith, bound)) ∙ omega arith

      service_size : size_sub second (suc comma) ≡ length e.service_r
      service_size = size_sub-small _ _ (omega arith) (omega (arith, bound)) ∙ omega arith

abbrev pub near_left : Ends → Text → LinkProperty
near_left e val = record {
  my_service = e.service_l;
  my_channel = e.channel_l;
  peer_service = e.service_r;
  peer_channel = e.channel_r;
  options = val;
}

abbrev pub near_right : Ends → Text → LinkProperty
near_right e val = record {
  my_service = e.service_r;
  my_channel = e.channel_r;
  peer_service = e.service_l;
  peer_channel = e.channel_l;
  options = val;
}

-- The assignment for a service that is linked with itself is lost.
turned :
    (mine : Text) (e : Ends) (val : Text)
    → record (near_far mine e (same_service e no_link)) { options = val }
      ≡ (if text_eq e.service_l mine then near_left e val else near_right e val)
unfolding near_far
turned mine e val = elim (Bool-cases (text_eq e.service_l mine)) [
  | inl q ↦ rw (q, near_far) refl
  | inr q ↦ rw (q, near_far) refl
]

-- A link between two ends, under its key, for a separator of one character that neither is a comma
-- nor stands in a name, and names without commas, in a key that fits into a string: the end whose
-- service is that of the instance is the near one, the left end if both are. If neither is, the
-- right end is taken for the near one.
pub read_link_property-pair :
    (R : Redis) (cfg : Config) (c : ℕ) (e : Ends) (s : R.Store) (val : Text)
    → Plain c e
    → cfg.separator ≡ c ∷ []
    → R.get (link_prefix cfg ++ pair c e) s ≡ some val
    → read_link_property R cfg (link_prefix cfg ++ pair c e) s
      ≡ some (if text_eq e.service_l cfg.service_name then near_left e val else near_right e val)
unfolding read_link_property
read_link_property-pair R cfg c e s val p sep found =
    rw
      (
        substr-rest (link_prefix cfg) (pair c e) refl refl (omega (arith, p.fits)),
        read_link_property,
      )
      (rw cut (rw found (ap some (turned cfg.service_name e val))))
  where
    cut : split_pair cfg.separator (pair c e) ≡ some e
    cut = rw sep (split_pair-pair c e p)

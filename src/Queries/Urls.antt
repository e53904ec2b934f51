-- ===== src/Queries/Urls.antt =====
-- web/src/lib/queries.ts: a URL of resources names one target: the resource, the parts of its address, and the action.
use yafu.Base.{
  ap₂, subst, ℕ, ◌≡◌, refl, sym, ap, ◌∙◌, false, Option, none, some, Option-cases, List, [], ◌∷◌,
  ◌++◌, append_assoc, Text, codes, join, Lacks, cut_unique, All, inl, inr,
}
use yafu.Uri.{cons_all, encode_uri_component, encode_all, unreserved}
use yafu.Uri.Decode.{IsUtf16, encode-inj}
use yafu.Uri.Safe.{encode-IsSafe, IsSafe-Lacks, is_safe}
use yafu.Queries.{resource_url}

slash : is_safe b'/' ≡ false
unfolding unreserved
slash = refl

-- What a URL names: the kind of resource, the parts of its address, and the action.
pub record Target : Type 0 where
  pub resource : Text
  pub first : Text
  pub rest : List Text
  pub action : Text

abbrev pub parts : Target → List Text
parts t = t.first ∷ t.rest

abbrev pub target_url : Target → Option Text
target_url t = resource_url t.resource (parts t) t.action

-- The parts are texts of 16-bit units, and neither the resource nor the action holds a slash.
abbrev pub IsPlain : Target → Type 0
IsPlain t = Lacks b'/' t.resource × Lacks b'/' t.action × All IsUtf16 (t.first ∷ t.rest)

encode_all-some :
    (s : Text) (ss es : List Text)
    → encode_all (s ∷ ss) ≡ some es
    → (e : Text) × (r : List Text) × (encode_uri_component s ≡ some e)
      × (encode_all ss ≡ some r)
      × (e ∷ r ≡ es)
encode_all-some s ss es h = both (encode_uri_component s) (encode_all ss) h
  where
    both :
        (o : Option Text) (os : Option (List Text))
        → cons_all o os ≡ some es
        → (e : Text) × (r : List Text) × (o ≡ some e) × (os ≡ some r) × (e ∷ r ≡ es)
    both none os q = cc
    both (some e) none q = cc
    both (some e) (some r) q = (e, r, refl, refl, cc)

encode_all-Lacks :
    (ss es : List Text) → All IsUtf16 ss → encode_all ss ≡ some es → All (Lacks b'/') es
encode_all-Lacks [] es h p = let empty : [] ≡ es = cc in rw (← empty) tt
encode_all-Lacks (s ∷ ss) es (h, hs) p =
    let (e, r, a, b, c) = encode_all-some s ss es p in
    rw (← c) (IsSafe-Lacks b'/' e slash (encode-IsSafe s e h a), encode_all-Lacks ss r hs b)

encode_all-inj :
    (ss ts es : List Text)
    → All IsUtf16 ss
    → All IsUtf16 ts
    → encode_all ss ≡ some es
    → encode_all ts ≡ some es
    → ss ≡ ts
encode_all-inj [] [] es h k p q = refl
encode_all-inj [] (t ∷ ts) es h k p q = let (e, r, a, b, c) = encode_all-some t ts es q in cc
encode_all-inj (s ∷ ss) [] es h k p q = let (e, r, a, b, c) = encode_all-some s ss es p in cc
encode_all-inj (s ∷ ss) (t ∷ ts) es (h, hs) (k, ks) p q =
    let (e, r, a, b, c) = encode_all-some s ss es p in
    let (e', r', a', b', c') = encode_all-some t ts es q in
    let heads : e ≡ e' = cc in
    let tails : r ≡ r' = cc in
    let x = encode-inj s t e h k a (a' ∙ ap some (sym heads)) in
    let y = encode_all-inj ss ts r hs ks b (b' ∙ ap some (sym tails)) in cc

not-Lacks : (d : ℕ) (x y : Text) → Lacks d (x ++ d ∷ y) → ⊥
not-Lacks d [] y (h, _) = h refl
not-Lacks d (c ∷ x) y (_, h) = not-Lacks d x y h

join-cons :
    (p q : Text) (ps : List Text) (r : Text)
    → join (b'/' ∷ []) (p ∷ q ∷ ps) ++ r ≡ p ++ b'/' ∷ (join (b'/' ∷ []) (q ∷ ps) ++ r)
unfolding join
join-cons p q ps r = append_assoc p (b'/' ∷ join (b'/' ∷ []) (q ∷ ps)) r

-- A path is cut at its slashes in one way: the parts and the last segment.
join_unique :
    (ps qs : List Text) (p q v w : Text)
    → All (Lacks b'/') (p ∷ ps)
    → All (Lacks b'/') (q ∷ qs)
    → Lacks b'/' v
    → Lacks b'/' w
    → join (b'/' ∷ []) (p ∷ ps) ++ b'/' ∷ v ≡ join (b'/' ∷ []) (q ∷ qs) ++ b'/' ∷ w
    → (p ∷ ps ≡ q ∷ qs) × (v ≡ w)
unfolding join
join_unique [] [] p q v w (hp, _) (hq, _) hv hw e =
    let (a, b) = cut_unique b'/' p q v w hp hq e in (ap (λ x. x ∷ []) a, b)
join_unique [] (q' ∷ qs) p q v w (hp, _) (hq, hqs) hv hw e =
    let (a, b) = cut_unique b'/' p q v _ hp hq (e ∙ join-cons q q' qs (b'/' ∷ w)) in
    absurd (not-Lacks b'/' (join (b'/' ∷ []) (q' ∷ qs)) w (subst (Lacks b'/') b hv))
join_unique (p' ∷ ps) [] p q v w (hp, hps) (hq, _) hv hw e =
    let (a, b) = cut_unique b'/' p q _ w hp hq (sym (join-cons p p' ps (b'/' ∷ v)) ∙ e) in
    absurd (not-Lacks b'/' (join (b'/' ∷ []) (p' ∷ ps)) v (subst (Lacks b'/') (sym b) hw))
join_unique (p' ∷ ps) (q' ∷ qs) p q v w (hp, hps) (hq, hqs) hv hw e =
    let (a, b) =
      cut_unique b'/' p q (join (b'/' ∷ []) (p' ∷ ps) ++ b'/' ∷ v)
        (join (b'/' ∷ []) (q' ∷ qs) ++ b'/' ∷ w) hp hq
        (sym (join-cons p p' ps (b'/' ∷ v)) ∙ e ∙ join-cons q q' qs (b'/' ∷ w)) in
    let (x, y) = join_unique ps qs p' q' v w hps hqs hv hw b in (ap₂ ◌∷◌ a x, y)

drop_prefix : (x s t : Text) → x ++ s ≡ x ++ t → s ≡ t
drop_prefix [] s t e = e
drop_prefix (c ∷ x) s t e = drop_prefix x s t (cc)

url_of-some :
    (t : Target) (u : Text)
    → target_url t ≡ some u
    → (e : Text) × (r : List Text) × (encode_all (parts t) ≡ some (e ∷ r))
      × (codes "/api/v1/" ++ (t.resource ++ b'/' ∷ (join (b'/' ∷ []) (e ∷ r) ++ b'/' ∷ t.action))
          ≡ u)
unfolding resource_url
url_of-some t u h = elim (Option-cases (encode_all (parts t))) [
  | inl p ↦ let no' : none ≡ some u = rw p at h in cc
  | inr (es, p) ↦
      let (e, r, _, _, c) = encode_all-some t.first t.rest es p in
      let found : some
            (codes "/api/v1/" ++ (t.resource ++ b'/' ∷ (join (b'/' ∷ []) es ++ b'/' ∷ t.action)))
          ≡ some u =
        rw p at h in
      (e, r, p ∙ ap some (sym c), rw c (some_inj found))
]
  where
    some_inj : {v w : Text} → some v ≡ some w → v ≡ w
    some_inj q = cc

-- Two targets with one URL are the same target.
pub target_url-inj :
    (t s : Target) (u : Text)
    → IsPlain t
    → IsPlain s
    → target_url t ≡ some u
    → target_url s ≡ some u
    → (t.resource ≡ s.resource) × (parts t ≡ parts s) × (t.action ≡ s.action)
target_url-inj t s u (tr, ta, tp) (sr, sa, sp) h k =
    let (e, r, p, q) = url_of-some t u h in
    let (e', r', p', q') = url_of-some s u k in
    let (x, y) =
      cut_unique b'/' t.resource s.resource _ _ tr sr
        (drop_prefix (codes "/api/v1/") _ _ (q ∙ sym q')) in
    let (z, w) =
      join_unique r r' e e' t.action s.action (encode_all-Lacks (parts t) (e ∷ r) tp p)
        (encode_all-Lacks (parts s) (e' ∷ r') sp p') ta sa y in
    (x, encode_all-inj (parts t) (parts s) (e ∷ r) tp sp p (p' ∙ ap some (sym z)), w)

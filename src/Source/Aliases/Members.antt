-- ===== src/Source/Aliases/Members.antt =====
-- The chains of the alias groups, against the inverted map.
use loggi.Prelude.{
  ◌≡◌, ◌≢◌, refl, sym, ◌∙◌, ap, subst, ◌↔◌, inl, inr, Bool, true, false, Option, none, some, List,
  [], ◌∷◌, ◌&&◌, not, lookup, insert, lookup-insert, arith, Bool-cases, if◌then◌else◌, if_cases,
  ◌⊎◌, Reordered, same, keep, swap, then_by,
}
use loggi.Text.{Bytes, str_eq, str_eq_iff, bytes_eq}
use loggi.Source.Levels.{or_empty}
use loggi.Source.Aliases.{
  Groups, alias_map, has, add_members, invert, resolve, list_or_nil, members,
}

-- The ids of the groups that have the name, in order.
abbrev owners : Bytes → Groups → List Bytes
owners raw [] = []
owners raw ((logical, ms) ∷ groups) =
    if has raw ms then logical ∷ owners raw groups else owners raw groups

abbrev last_or : {A : Type 0} → A → List A → A
last_or d [] = d
last_or d (x ∷ xs) = last_or x xs

lookup-add_members :
    (raw logical : Bytes) (raws : List Bytes) (m : List (Bytes × Bytes))
    → lookup raw (add_members logical raws m)
      ≡ (if has raw raws then some logical else lookup raw m)
unfolding add_members has
lookup-add_members raw logical [] m = refl
lookup-add_members raw logical (r ∷ raws) m =
    ground (
      arith,
      lookup-add_members raw logical raws (insert r logical m),
      lookup-insert r raw logical m,
    )

abbrev wrap : List Bytes → List (Option Bytes)
wrap [] = []
wrap (x ∷ xs) = some x ∷ wrap xs

lookup-invert :
    (raw : Bytes) (groups : Groups) (m : List (Bytes × Bytes))
    → lookup raw (invert groups m) ≡ last_or (lookup raw m) (wrap (owners raw groups))
unfolding invert
lookup-invert raw [] m = refl
lookup-invert raw ((logical, ms) ∷ groups) m = ground (
  arith,
  lookup-invert raw groups (add_members logical ms m),
  lookup-add_members raw logical ms m,
)

-- No name of the list is in a later group.
abbrev apart : List Bytes → Groups → Bool
apart [] groups = true
apart (r ∷ rs) groups = elim (owners r groups) [ [] ↦ apart rs groups | l ∷ ls ↦ false ]

abbrev disjoint : Groups → Bool
disjoint [] = true
disjoint ((logical, ms) ∷ groups) = apart ms groups && disjoint groups

abbrev ids : Groups → List Bytes
ids [] = []
ids ((logical, ms) ∷ groups) = logical ∷ ids groups

abbrev distinct_ids : List Bytes → Bool
distinct_ids [] = true
distinct_ids (l ∷ ls) = not (has l ls) && distinct_ids ls

owners_of_apart :
    (raw : Bytes) (ms : List Bytes) (groups : Groups)
    → apart ms groups ≡ true
    → has raw ms ≡ true
    → owners raw groups ≡ []
unfolding has
owners_of_apart raw [] groups a h = cc
owners_of_apart raw (r ∷ rs) groups a h =
    elim (owners r groups) as (λ o. owners r groups ≡ o → owners raw groups ≡ []) [
      | [] ↦ λ e. elim (Bool-cases (str_eq r raw)) [
        | inl p ↦ subst (λ t. owners t groups ≡ []) ((str_eq_iff r raw).0 p) e
        | inr p ↦ owners_of_apart raw rs groups (ground (arith, e)) (ground arith)
      ]
      | l ∷ ls ↦ λ e. absurd (ground (arith, e))
    ]
      refl

-- Of disjoint groups one at most has the name.
abbrev AtMostOne : List Bytes → Type 0
AtMostOne l = (l ≡ []) ⊎ ((x : Bytes) × (l ≡ x ∷ []))

owners-AtMostOne :
    (raw : Bytes) (groups : Groups) → disjoint groups ≡ true → AtMostOne (owners raw groups)
owners-AtMostOne raw [] h = inl refl
owners-AtMostOne raw ((logical, ms) ∷ groups) h =
    if_cases AtMostOne (has raw ms) _ _
      (λ p. inr (logical, ap (◌∷◌ logical) (owners_of_apart raw ms groups (ground arith) p)))
      λ p. owners-AtMostOne raw groups (ground arith)

has-owners_none :
    (raw logical : Bytes) (groups : Groups)
    → has logical (ids groups) ≡ false
    → has logical (owners raw groups) ≡ false
unfolding has
has-owners_none raw logical [] h = refl
has-owners_none raw logical ((l, ms) ∷ groups) h =
    ground (arith, has-owners_none raw logical groups)

has-owners :
    (raw logical : Bytes) (groups : Groups)
    → distinct_ids (ids groups) ≡ true
    → has logical (owners raw groups) ≡ has raw (list_or_nil (lookup logical groups))
unfolding has list_or_nil
has-owners raw logical [] h = refl
has-owners raw logical ((l, ms) ∷ groups) h = elim (Bool-cases (str_eq l logical)) [
  | inl p ↦
      let e : has logical (ids groups) ≡ false =
        subst (λ t. has t (ids groups) ≡ false) ((str_eq_iff l logical).0 p) (ground arith) in
      ground (arith, has-owners_none raw logical groups e)
  | inr p ↦ ground (arith, has-owners raw logical groups)
]

owners-Reordered :
    (raw : Bytes) (g k : Groups) → Reordered g k → Reordered (owners raw g) (owners raw k)
owners-Reordered raw g k same = same
owners-Reordered raw _ _ (keep {x = (l, ms)} r) = elim (Bool-cases (has raw ms)) [
  | inl p ↦ rw p (keep (owners-Reordered raw _ _ r))
  | inr p ↦ rw p (owners-Reordered raw _ _ r)
]
owners-Reordered raw _ _ (swap {x = (l, ms)} {y = (k, ns)} r) = elim (Bool-cases (has raw ms)) [
  | inl p ↦ elim (Bool-cases (has raw ns)) [
    | inl q ↦ rw (p, q) (swap (owners-Reordered raw _ _ r))
    | inr q ↦ rw (p, q) (keep (owners-Reordered raw _ _ r))
  ]
  | inr p ↦ elim (Bool-cases (has raw ns)) [
    | inl q ↦ rw (p, q) (keep (owners-Reordered raw _ _ r))
    | inr q ↦ rw (p, q) (owners-Reordered raw _ _ r)
  ]
]
owners-Reordered raw g k (then_by {m = m} r s) =
    then_by (owners-Reordered raw g m r) (owners-Reordered raw m k s)

AtMostOne-Reordered : (l m : List Bytes) → Reordered l m → AtMostOne m → l ≡ m
AtMostOne-Reordered l m same h = refl
AtMostOne-Reordered _ _ (keep {x = x} {l = l} {m = m} r) (inl e) = absurd (cc)
AtMostOne-Reordered _ _ (keep {x = x} {l = l} {m = m} r) (inr (y, e)) =
    let t : m ≡ [] = cc in ap (◌∷◌ x) (AtMostOne-Reordered l m r (inl t))
AtMostOne-Reordered _ _ (swap r) (inl e) = absurd (cc)
AtMostOne-Reordered _ _ (swap r) (inr (y, e)) = absurd (cc)
AtMostOne-Reordered l n (then_by {m = m} r s) h =
    let e = AtMostOne-Reordered m n s h in AtMostOne-Reordered l m r (subst AtMostOne (sym e) h) ∙ e

resolve-last : (groups : Groups) (raw : Bytes) → resolve groups raw ≡ last_or [] (owners raw groups)
unfolding resolve
resolve-last groups raw =
    ap or_empty (lookup-invert raw groups []) ∙ last_of_wrapped [] none refl (owners raw groups)
  where
    last_of_wrapped :
        (d : Bytes) (o : Option Bytes)
        → or_empty o ≡ d
        → (l : List Bytes) → or_empty (last_or o (wrap l)) ≡ last_or d l
    last_of_wrapped d o e [] = e
    last_of_wrapped d o e (x ∷ l) = last_of_wrapped x (some x) refl l

abbrev alias_owners : Bytes → List Bytes
alias_owners raw = owners raw alias_map

alias_owners-AtMostOne : (raw : Bytes) → AtMostOne (alias_owners raw)
unfolding str_eq
alias_owners-AtMostOne raw = owners-AtMostOne raw alias_map (unfold alias_map has in refl)

resolve-alias_owners :
    (groups : Groups) (raw : Bytes)
    → Reordered groups alias_map
    → resolve groups raw ≡ last_or [] (alias_owners raw)
resolve-alias_owners groups raw r =
    resolve-last groups raw
    ∙ ap (last_or []) (
        AtMostOne-Reordered _ _ (owners-Reordered raw groups alias_map r)
          (alias_owners-AtMostOne raw))

-- The order of the groups does not show.
pub resolve-Reordered :
    (groups : Groups) (raw : Bytes)
    → Reordered groups alias_map
    → resolve groups raw ≡ resolve alias_map raw
resolve-Reordered groups raw r =
    resolve-alias_owners groups raw r ∙ sym (resolve-alias_owners alias_map raw same)

-- In whatever order the map's groups are visited, a raw key resolves to a logical id exactly when
-- it is a member of that id's chain.
pub resolve_iff_member :
    (groups : Groups) (raw logical : Bytes)
    → Reordered groups alias_map
    → logical ≢ []
    → (resolve groups raw ≡ logical) ↔ (has raw (members logical) ≡ true)
unfolding members str_eq
resolve_iff_member groups raw logical r n =
    rw (resolve-alias_owners groups raw r, ← has-owners raw logical alias_map distinct)
      (last_iff _ (alias_owners-AtMostOne raw))
  where
    distinct : distinct_ids (ids alias_map) ≡ true
    distinct = unfold alias_map has in refl

    last_iff : (l : List Bytes) → AtMostOne l → (last_or [] l ≡ logical) ↔ (has logical l ≡ true)
    last_iff _ (inl e) = rw e (λ h. absurd (n (sym h)), λ h. absurd (unfold has in cc))
    last_iff _ (inr (x, e)) = rw e (
      λ h. unfold has in ground (arith, str_eq_iff x logical),
      λ h. unfold has in ground (arith, str_eq_iff x logical),
    )

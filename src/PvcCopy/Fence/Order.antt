-- ===== src/PvcCopy/Fence/Order.antt =====
-- internal/pvccopy/fence.go: the order of a plan's items does not enter the identity of its fence.
use mathlib.Core.Logic.{∥∥₁_elim}
use mathlib.Core.Bool.{Bool-set}
use mathlib.Core.List.{Perm, Permᴰ, is_set as List_set}
use native.Mathlib.Nat.{ℕ_set}
use runner.Prelude.{
  if◌then◌else◌, Bool, true, false, ◌≡◌, refl, sym, ap, ◌∙◌, List, [], ◌∷◌, map, ◌&&◌, ◌||◌, not,
  arith, &&_split, Option, none, Bool-cases, inl, inr,
}
use runner.Prelude.Order.{sort_by, insert_by, insert_by_comm}
use runner.Prelude.Bytes.{Bytes, bytes_eq, bytes_eq→eq, bytes_eq_refl}
use runner.PvcCopy.Fence.{
  Item, DomainPlan, FenceSource, Authority, ref_of, source_of, source_key, has_items, valid_item,
  is_seen, valid_items, valid_scope, authority_of, fence_authority,
}

seen_head : (s t : Bytes) (seen : List Bytes) → s ≡ t → is_seen (s ∷ seen) t ≡ true
seen_head s t seen h = rw (h, bytes_eq_refl t) refl

bytes_eq_sym : (s t : Bytes) → bytes_eq s t ≡ bytes_eq t s
bytes_eq_sym s t = elim (Bool-cases (bytes_eq s t)) [
  | inl h ↦ rw (bytes_eq→eq s t h) refl
  | inr h ↦ elim (Bool-cases (bytes_eq t s)) [
    | inl k ↦ rw (bytes_eq→eq t s k) refl
    | inr k ↦ h ∙ sym k
  ]
]

-- Only which refs were seen matters.
valid_items-seen :
    (tenant : Bytes) (s t : List Bytes) (is : List Item)
    → ((ref : Bytes) → is_seen s ref ≡ is_seen t ref)
    → valid_items tenant s is ≡ valid_items tenant t is
unfolding valid_items
valid_items-seen tenant s t [] same = refl
valid_items-seen tenant s t (i ∷ is) same =
    rw
      (
        same (ref_of i),
        valid_items-seen tenant (ref_of i ∷ s) (ref_of i ∷ t) is
            (λ ref. ap (λ b. bytes_eq (ref_of i) ref || b) (same ref)),
      )
      refl

bools_swap :
    (a b c d e f : Bool)
    → (a && not c && (b && not (e || d) && f)) ≡ (b && not d && (a && not (e || c) && f))
bools_swap a b c d e f = ground arith

valid_items-swap :
    (tenant : Bytes) (seen : List Bytes) (a b : Item) (is : List Item)
    → valid_items tenant seen (a ∷ b ∷ is) ≡ valid_items tenant seen (b ∷ a ∷ is)
unfolding valid_items
valid_items-swap tenant seen a b is =
    rw
      (
        bytes_eq_sym (ref_of a) (ref_of b),
        valid_items-seen tenant (ref_of b ∷ ref_of a ∷ seen) (ref_of a ∷ ref_of b ∷ seen) is
            (λ ref. ground arith),
      )
      (bools_swap (valid_item tenant a) (valid_item tenant b) (is_seen seen (ref_of a))
        (is_seen seen (ref_of b)) (bytes_eq (ref_of b) (ref_of a)) _)

valid_items-tail :
    (tenant : Bytes) (seen : List Bytes) (i : Item) (xs ys : List Item)
    → valid_items tenant (ref_of i ∷ seen) xs ≡ valid_items tenant (ref_of i ∷ seen) ys
    → valid_items tenant seen (i ∷ xs) ≡ valid_items tenant seen (i ∷ ys)
unfolding valid_items
valid_items-tail tenant seen i xs ys h = rw h refl

valid_items-Permᴰ :
    (tenant : Bytes) (seen : List Bytes) {xs ys : List Item}
    → Permᴰ xs ys
    → valid_items tenant seen xs ≡ valid_items tenant seen ys
valid_items-Permᴰ tenant seen Permᴰ.nil = refl
valid_items-Permᴰ tenant seen (Permᴰ.cons {a = a} {l₁ = xs} {l₂ = ys} e d) =
    valid_items-tail tenant seen a xs ys (valid_items-Permᴰ tenant (ref_of a ∷ seen) d)
    ∙ ap (λ i. valid_items tenant seen (i ∷ ys)) e
valid_items-Permᴰ tenant seen (Permᴰ.swap {a = a} {b = b} {l = l} e k) =
    valid_items-swap tenant seen a b l ∙ (λ i. valid_items tenant seen (k i ∷ e i ∷ l))
valid_items-Permᴰ tenant seen (Permᴰ.trans d e) =
    valid_items-Permᴰ tenant seen d ∙ valid_items-Permᴰ tenant seen e

valid_items-rest :
    (tenant : Bytes) (seen : List Bytes) (i : Item) (is : List Item)
    → valid_items tenant seen (i ∷ is) ≡ true
    → valid_items tenant (ref_of i ∷ seen) is ≡ true
unfolding valid_items
valid_items-rest tenant seen i is h =
    (&&_split (valid_item tenant i && not (is_seen seen (ref_of i))) _ h).1

-- Of the items of a valid list no two have the same ref.
valid_items-fresh :
    (tenant : Bytes) (seen : List Bytes) (a : Item) (is : List Item)
    → valid_items tenant seen (a ∷ is) ≡ true
    → is_seen seen (ref_of a) ≡ false
unfolding valid_items
valid_items-fresh tenant seen a is h =
    let (both, rest) = &&_split (valid_item tenant a && not (is_seen seen (ref_of a))) _ h in
    let (ok, new_one) = &&_split (valid_item tenant a) _ both in
    elim (Bool-cases (is_seen seen (ref_of a))) [
      | inl old ↦ cc (new_one, ap (λ b. not b) old)
      | inr fresh ↦ fresh
    ]

insert_sources_comm :
    (tenant : Bytes) (seen : List Bytes) (a b : Item) (l : List Item) (xs : List FenceSource)
    → valid_items tenant seen (a ∷ b ∷ l) ≡ true
    → insert_by source_key (source_of a) (insert_by source_key (source_of b) xs)
      ≡ insert_by source_key (source_of b) (insert_by source_key (source_of a) xs)
unfolding ref_of source_key source_of
insert_sources_comm tenant seen a b l xs h =
    insert_by_comm source_key (source_of a) (source_of b) xs λ same. absurd (
      cc (
        seen_head (ref_of a) (ref_of b) seen same,
        valid_items-fresh tenant (ref_of a ∷ seen) b l (valid_items-rest tenant seen a (b ∷ l) h),
      ))

sources-Permᴰ :
    (tenant : Bytes) (seen : List Bytes) {xs ys : List Item}
    → Permᴰ xs ys
    → valid_items tenant seen xs ≡ true
    → sort_by source_key (map source_of xs) ≡ sort_by source_key (map source_of ys)
unfolding sort_by
sources-Permᴰ tenant seen Permᴰ.nil h = refl
sources-Permᴰ tenant seen (Permᴰ.cons {a = a} {l₁ = xs} {l₂ = ys} e d) h =
    ap (insert_by source_key (source_of a))
      (sources-Permᴰ tenant (ref_of a ∷ seen) d (valid_items-rest tenant seen a xs h))
    ∙ ap (λ i. insert_by source_key (source_of i) (sort_by source_key (map source_of ys))) e
sources-Permᴰ tenant seen (Permᴰ.swap {a = a} {b = b} {l = l} e k) h =
    insert_sources_comm tenant seen a b l (sort_by source_key (map source_of l)) h
    ∙ (λ i. sort_by source_key (map source_of (k i ∷ e i ∷ l)))
sources-Permᴰ tenant seen (Permᴰ.trans d e) h =
    sources-Permᴰ tenant seen d h
    ∙ sources-Permᴰ tenant seen e (sym (valid_items-Permᴰ tenant seen d) ∙ h)

has_items-Permᴰ : {xs ys : List Item} → Permᴰ xs ys → has_items xs ≡ has_items ys
has_items-Permᴰ Permᴰ.nil = refl
has_items-Permᴰ (Permᴰ.cons e d) = refl
has_items-Permᴰ (Permᴰ.swap e k) = refl
has_items-Permᴰ (Permᴰ.trans d e) = has_items-Permᴰ d ∙ has_items-Permᴰ e

-- What is refused on either side is none.
refused_alike :
    {A : Type 0} (b : Bool) (x y : Option A)
    → (if b && false then x else none) ≡ (if b && false then y else none)
refused_alike true x y = refl
refused_alike false x y = refl

same_hash :
    (sum_json : Authority → Bytes) (plan : DomainPlan) (namespace account : Bytes)
    (items : List Item)
    → Perm plan.items items
    → valid_items plan.tenant_id [] plan.items ≡ true
    → sum_json (authority_of sum_json (record plan { items = items }) namespace account)
      ≡ sum_json (authority_of sum_json plan namespace account)
unfolding authority_of
same_hash sum_json plan namespace account items h valid = ∥∥₁_elim h (List_set ℕ_set _ _) λ d.
    ap
      (λ sources. sum_json record {
        tenant_id = plan.tenant_id;
        project_id = plan.project_id;
        runner_namespace = namespace;
        runner_service_account = account;
        image = plan.image;
        sources = sources;
      })
      (sym (sources-Permᴰ plan.tenant_id [] d valid))

-- Listing the items of a plan in another order does not change the name and the digest of its
-- admission fence: both plans are refused, or both get the same.
pub fence_authority-order :
    (sum_json : Authority → Bytes) (plan : DomainPlan) (namespace account : Bytes)
    (items : List Item)
    → Perm plan.items items
    → fence_authority sum_json (record plan { items = items }) namespace account
      ≡ fence_authority sum_json plan namespace account
unfolding fence_authority valid_scope
fence_authority-order sum_json plan namespace account items h =
    let listed : has_items plan.items ≡ has_items items =
      ∥∥₁_elim h (Bool-set _ _) (λ d. has_items-Permᴰ d) in
    let valid_too : valid_items plan.tenant_id [] plan.items ≡ valid_items plan.tenant_id [] items =
      ∥∥₁_elim h (Bool-set _ _) (λ d. valid_items-Permᴰ plan.tenant_id [] d) in
    elim (Bool-cases (valid_items plan.tenant_id [] plan.items)) [
      | inr invalid ↦ rw (sym valid_too, invalid, listed) (refused_alike _ _ _)
      | inl valid ↦
          rw (sym valid_too, listed, same_hash sum_json plan namespace account items h valid) refl
    ]

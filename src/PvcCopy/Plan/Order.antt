-- ===== src/PvcCopy/Plan/Order.antt =====
-- internal/pvccopy/plan.go: the order of the allowed source namespaces.
use mathlib.Core.Logic.{∥∥₁_elim}
use mathlib.Core.Bool.{Bool-set}
use mathlib.Core.List.{Perm, Permᴰ}
use mathlib.Core.List.{is_set as List_set}
use native.Mathlib.Nat.{ℕ_set}
use runner.Prelude.{◌≡◌, refl, sym, ◌∙◌, List, length, arith}
use runner.Prelude.Order.{sort_strings, sort_by, insert_by_comm}
use runner.Prelude.Bytes.{Bytes}
use runner.PvcCopy.Plan.{Plan, validate, valid_fields, digest, namespace_allowed}

sort_strings-Permᴰ : {xs ys : List Bytes} → Permᴰ xs ys → sort_strings xs ≡ sort_strings ys
unfolding sort_strings
sort_strings-Permᴰ Permᴰ.nil = refl
sort_strings-Permᴰ (Permᴰ.cons {l₁ = l} e d) = rw (e, sort_strings-Permᴰ d) refl
sort_strings-Permᴰ (Permᴰ.swap {a = a} {b = b} {l = l} e k) =
    rw (sym e, sym k) (insert_by_comm (λ s. s) a b (sort_by (λ s. s) l) (λ e. e))
sort_strings-Permᴰ (Permᴰ.trans d e) = sort_strings-Permᴰ d ∙ sort_strings-Permᴰ e

namespace_allowed-Permᴰ :
    (s : Bytes) {xs ys : List Bytes} → Permᴰ xs ys → namespace_allowed s xs ≡ namespace_allowed s ys
unfolding namespace_allowed
namespace_allowed-Permᴰ s Permᴰ.nil = refl
namespace_allowed-Permᴰ s (Permᴰ.cons e d) = rw (e, namespace_allowed-Permᴰ s d) refl
namespace_allowed-Permᴰ s (Permᴰ.swap {a = a} {b = b} {l = l} e k) = rw (sym e, sym k) ground arith
namespace_allowed-Permᴰ s (Permᴰ.trans d e) =
    namespace_allowed-Permᴰ s d ∙ namespace_allowed-Permᴰ s e

length-Permᴰ : {xs ys : List Bytes} → Permᴰ xs ys → length xs ≡ length ys
length-Permᴰ Permᴰ.nil = refl
length-Permᴰ (Permᴰ.cons e d) = rw (length-Permᴰ d) refl
length-Permᴰ (Permᴰ.swap e k) = refl
length-Permᴰ (Permᴰ.trans d e) = length-Permᴰ d ∙ length-Permᴰ e

validate-order :
    (p : Plan) (xs : List Bytes)
    → Perm p.allowed_source_namespaces xs
    → validate (record p { allowed_source_namespaces = xs }) ≡ validate p
unfolding validate valid_fields
validate-order p xs h =
    rw
      (
        ∥∥₁_elim h (ℕ_set _ _) (λ d. length-Permᴰ d),
        ∥∥₁_elim h (Bool-set _ _) (λ d. namespace_allowed-Permᴰ p.source.namespace d),
      )
      refl

-- Listing the allowed source namespaces of a plan in another order does not change the plan's
-- digest: both are refused, or both get the same one.
pub digest-order :
    (sum_json : Plan → Bytes) (p : Plan) (xs : List Bytes)
    → Perm p.allowed_source_namespaces xs
    → digest sum_json (record p { allowed_source_namespaces = xs }) ≡ digest sum_json p
unfolding digest
digest-order sum_json p xs h =
    rw
      (
        validate-order p xs h,
        ∥∥₁_elim h (List_set (List_set ℕ_set) _ _) (λ d. sort_strings-Permᴰ d),
      )
      refl

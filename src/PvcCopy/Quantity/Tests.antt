-- ===== src/PvcCopy/Quantity/Tests.antt =====
-- Tests of internal/pvccopy/domain.go: quantityBytes.
use runner.Prelude.{◌≡◌, refl, some, none}
use runner.Prelude.Bytes.{codes, bytes_eq}
use runner.PvcCopy.Quantity.{quantity_bytes, IsLeast, quantity_bytes-IsLeast}

kibibytes : quantity_bytes (codes "1.5Ki") ≡ some 1536
unfolding quantity_bytes bytes_eq
kibibytes = refl

quantity_bytes-IsLeast_example : IsLeast (codes "1.5Ki") 1536
quantity_bytes-IsLeast_example = quantity_bytes-IsLeast (codes "1.5Ki") 1536 kibibytes

no_suffix_point : quantity_bytes (codes "1.Ki") ≡ none
unfolding quantity_bytes bytes_eq
no_suffix_point = refl

rounds_up : quantity_bytes (codes "0.5") ≡ some 1
unfolding quantity_bytes bytes_eq
rounds_up = refl

zero_refused : quantity_bytes (codes "0Gi") ≡ none
unfolding quantity_bytes bytes_eq
zero_refused = refl

largest_refused : quantity_bytes (codes "8Ei") ≡ none
unfolding quantity_bytes bytes_eq
largest_refused = refl

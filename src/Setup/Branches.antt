-- ===== src/Setup/Branches.antt =====
-- The branches' publication rows under the menu commands of
-- apps/api/app/services/store_setup_service.py.
use sweetops.Base.{
  ℕ, ◌≡◌, refl, ◌+◌, ◌≤◌, ap, true, false, none, some, List, [], ◌∷◌, ◌==◌, arith, if◌then◌else◌,
  find, map, inl, inr, Bool-cases,
}
use sweetops.Setup.{StoreProduct, Catalog, is_offering}
use sweetops.Setup.Menu.{delete_offering, replace_offering}

-- The rows of a branch, and how many of them are of one product.
abbrev pub rows_of : ℕ → List StoreProduct → List StoreProduct
rows_of store [] = []
rows_of store (o ∷ os) = if o.store_id == store then o ∷ rows_of store os else rows_of store os

abbrev pub count_offering : ℕ → ℕ → List StoreProduct → ℕ
count_offering store product [] = 0
count_offering store product (o ∷ os) =
    (if is_offering store product o then 1 else 0) + count_offering store product os

abbrev pub IsUnique : Catalog → Type 0
IsUnique cat = (store product : ℕ) → count_offering store product cat.store_products ≤ 1

pub find-is_offering :
    (store product : ℕ) (o : StoreProduct) (os : List StoreProduct)
    → find (is_offering store product) os ≡ some o
    → is_offering store product o ≡ true
find-is_offering store product o [] h = absurd (ground arith)
find-is_offering store product o (x ∷ os) h = elim (Bool-cases (is_offering store product x)) [
  | inl e ↦ let w = rw e at h in let same : x ≡ o = ground (arith, w) in rw⁻¹ same e
  | inr e ↦ find-is_offering store product o os (rw e at h)
]

pub none-count_offering :
    (store product : ℕ) (os : List StoreProduct)
    → find (is_offering store product) os ≡ none
    → count_offering store product os ≡ 0
none-count_offering store product [] h = refl
none-count_offering store product (x ∷ os) h = elim (Bool-cases (is_offering store product x)) [
  | inl e ↦ absurd (let w = rw e at h in cc)
  | inr e ↦ rw e (omega (arith, none-count_offering store product os (rw e at h)))
]

pub delete-rows_of :
    (store product branch : ℕ) (os : List StoreProduct)
    → (store == branch) ≡ false
    → rows_of branch (delete_offering store product os) ≡ rows_of branch os
unfolding delete_offering
delete-rows_of store product branch [] apart = refl
delete-rows_of store product branch (o ∷ os) apart =
    let ih = delete-rows_of store product branch os apart in
    elim (Bool-cases (is_offering store product o)) [
      | inl e ↦ let other : (o.store_id == branch) ≡ false = ground arith in rw (e, other) ih
      | inr e ↦ elim (Bool-cases (o.store_id == branch)) [
        | inl mine ↦ rw (e, mine) (ap (λ rows. o ∷ rows) ih)
        | inr other ↦ rw (e, other) ih
      ]
    ]

pub replace-rows_of :
    (row : StoreProduct) (branch : ℕ) (os : List StoreProduct)
    → (row.store_id == branch) ≡ false
    → rows_of branch (map (replace_offering row) os) ≡ rows_of branch os
replace-rows_of row branch [] apart = refl
replace-rows_of row branch (o ∷ os) apart =
    let ih = replace-rows_of row branch os apart in
    elim (Bool-cases (is_offering row.store_id row.product_id o)) [
      | inl e ↦ let other : (o.store_id == branch) ≡ false = ground arith in rw (e, other, apart) ih
      | inr e ↦ elim (Bool-cases (o.store_id == branch)) [
        | inl mine ↦ rw (e, mine) (ap (λ rows. o ∷ rows) ih)
        | inr other ↦ rw (e, other) ih
      ]
    ]

pub delete-fewer :
    (store product s p : ℕ) (os : List StoreProduct)
    → count_offering s p (delete_offering store product os) ≤ count_offering s p os
unfolding delete_offering
delete-fewer store product s p [] = omega arith
delete-fewer store product s p (o ∷ os) = ground (arith, delete-fewer store product s p os)

pub replace-same :
    (row : StoreProduct) (s p : ℕ) (os : List StoreProduct)
    → count_offering s p (map (replace_offering row) os) ≡ count_offering s p os
replace-same row s p [] = refl
replace-same row s p (o ∷ os) = ground (arith, replace-same row s p os)

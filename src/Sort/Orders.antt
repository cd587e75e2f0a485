-- ===== src/Sort/Orders.antt =====
-- The comparisons of ex18.c as orders on the integers.
use itu_operating_systems_an.Base.{◌≡◌, refl, true, false, arith, ℤ, pos, negsuc, leb_ℤ, not}
use itu_operating_systems_an.Sort.{positive, sorted_order, reverse_order, strange_order}
use itu_operating_systems_an.Sort.Laws.{IsOrder}

sorted_order-sign : (a b : ℤ) → positive (sorted_order a b) ≡ not (leb_ℤ a b)
unfolding sorted_order
sorted_order-sign (pos a) (pos b) = ground arith
sorted_order-sign (pos a) (negsuc b) = refl
sorted_order-sign (negsuc a) (pos b) = refl
sorted_order-sign (negsuc a) (negsuc b) = ground arith

reverse_order-sign : (a b : ℤ) → positive (reverse_order a b) ≡ not (leb_ℤ b a)
unfolding reverse_order
reverse_order-sign (pos a) (pos b) = ground arith
reverse_order-sign (pos a) (negsuc b) = refl
reverse_order-sign (negsuc a) (pos b) = refl
reverse_order-sign (negsuc a) (negsuc b) = ground arith

leb_ℤ-total : (a b : ℤ) → leb_ℤ a b ≡ false → leb_ℤ b a ≡ true
leb_ℤ-total (pos a) (pos b) h = ground arith
leb_ℤ-total (pos a) (negsuc b) h = refl
leb_ℤ-total (negsuc a) (pos b) h = cc
leb_ℤ-total (negsuc a) (negsuc b) h = ground arith

leb_ℤ-trans : (a b c : ℤ) → leb_ℤ a b ≡ true → leb_ℤ b c ≡ true → leb_ℤ a c ≡ true
leb_ℤ-trans a b c h k = ground arith

pub sorted_order-IsOrder : IsOrder sorted_order
sorted_order-IsOrder = record {
  total = λ a b h. ground (arith, sorted_order-sign a b, sorted_order-sign b a, leb_ℤ-total a b);
  trans = λ a b c h k. ground (
    arith,
    sorted_order-sign a b,
    sorted_order-sign b c,
    sorted_order-sign a c,
    leb_ℤ-trans a b c,
  );
}

pub reverse_order-IsOrder : IsOrder reverse_order
reverse_order-IsOrder = record {
  total = λ a b h. ground (arith, reverse_order-sign a b, reverse_order-sign b a, leb_ℤ-total b a);
  trans = λ a b c h k. ground (
    arith,
    reverse_order-sign a b,
    reverse_order-sign b c,
    reverse_order-sign a c,
    leb_ℤ-trans c b a,
  );
}

-- `strange_order` puts 3 above 5 and 5 above 3.
strange_order-not_IsOrder : ¬ IsOrder strange_order
unfolding strange_order
strange_order-not_IsOrder o = cc (o.total (pos 3) (pos 5) refl)

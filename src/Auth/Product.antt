-- ===== src/Auth/Product.antt =====
-- src/auth/product.rs: the product that a session belongs to.
use teddy_fyi_api_rust.Prelude.{
  ◌≡◌, refl, ap, ◌∙◌, String, Bool, true, false, Option, none, some, str_eq, str_eq_iff,
  if◌then◌else◌, arith, ◌↔◌,
}

pub data Product : Type 0 where
  teddy_fyi scribble_route : Product

-- `==` on products.
unfoldable pub product_eq : Product → Product → Bool
product_eq teddy_fyi teddy_fyi = true
product_eq scribble_route scribble_route = true
product_eq _ _ = false

pub product_eq_iff : (p q : Product) → (product_eq p q ≡ true) ↔ (p ≡ q)
unfolding product_eq
product_eq_iff teddy_fyi teddy_fyi = ((λ e. refl), λ e. refl)
product_eq_iff scribble_route scribble_route = ((λ e. refl), λ e. refl)
product_eq_iff teddy_fyi scribble_route = ((λ e. ground arith), λ e. ground arith)
product_eq_iff scribble_route teddy_fyi = ((λ e. ground arith), λ e. ground arith)

unfoldable pub as_wire : Product → String
as_wire teddy_fyi = "teddy_fyi"
as_wire scribble_route = "scribbleroute"

unfoldable pub from_wire : String → Option Product
from_wire raw =
    if str_eq raw "teddy_fyi"
    then some teddy_fyi
    else if str_eq raw "scribbleroute"
    then some scribble_route
    else none

from_wire-as_wire : (p : Product) → from_wire (as_wire p) ≡ some p
unfolding from_wire as_wire
from_wire-as_wire teddy_fyi = refl
from_wire-as_wire scribble_route = refl

-- A text is read as a product exactly when it is that product's own spelling.
pub from_wire_iff : (raw : String) (p : Product) → (from_wire raw ≡ some p) ↔ (raw ≡ as_wire p)
unfolding from_wire as_wire
from_wire_iff raw teddy_fyi = (
  ((λ e. ground (arith, str_eq_iff raw "teddy_fyi", str_eq_iff raw "scribbleroute"))),
  λ e. ground (arith, str_eq_iff raw "teddy_fyi"),
)
from_wire_iff raw scribble_route = (
  (λ e. ground (arith, str_eq_iff raw "teddy_fyi", str_eq_iff raw "scribbleroute")),
  λ e. ap from_wire e ∙ from_wire-as_wire scribble_route,
)

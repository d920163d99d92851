-- ===== src/Sync/ScopeAuth.antt =====
-- src/routes/sync/scope_auth.rs: which scopes a token may ask for.
use teddy_fyi_api_rust.Prelude.{
  ◌≡◌, refl, sym, subst, Option, none, some, if◌then◌else◌, arith, ◌↔◌, ◌⊎◌, inl, inr,
}
use teddy_fyi_api_rust.Errors.{AppError, Result, ok, err, forbidden, into_response}
use teddy_fyi_api_rust.Auth.Product.{Product, teddy_fyi, scribble_route, product_eq, product_eq_iff}

pub data SyncScope : Type 0 where
  all grocery todo scribble_box scribble_keep scribble_keep_cloud : SyncScope

-- `SyncScope::product`
unfoldable pub product : SyncScope → Product
product all = teddy_fyi
product todo = teddy_fyi
product grocery = teddy_fyi
product scribble_box = scribble_route
product scribble_keep = scribble_route
product scribble_keep_cloud = scribble_route

-- From the product claim of the token.
unfoldable pub authorize_scope : Option Product → SyncScope → Result (Unit {0})
unfolding product_eq product
authorize_scope none scope = ok tt
authorize_scope (some p) scope =
    if product_eq p (product scope) then ok tt else err (forbidden "scope")

-- The boundary between the two products: the scopes that are each one's own.
pub data Owns : Product → SyncScope → Type 0 where
  teddy_all : Owns teddy_fyi all
  teddy_todo : Owns teddy_fyi todo
  teddy_grocery : Owns teddy_fyi grocery
  scribble_boxes : Owns scribble_route scribble_box
  scribble_keeps : Owns scribble_route scribble_keep
  scribble_clouds : Owns scribble_route scribble_keep_cloud

Owns-product : (p : Product) (scope : SyncScope) → Owns p scope → product scope ≡ p
unfolding product
Owns-product p scope teddy_all = refl
Owns-product p scope teddy_todo = refl
Owns-product p scope teddy_grocery = refl
Owns-product p scope scribble_boxes = refl
Owns-product p scope scribble_keeps = refl
Owns-product p scope scribble_clouds = refl

product-Owns : (scope : SyncScope) → Owns (product scope) scope
unfolding product
product-Owns all = teddy_all
product-Owns grocery = teddy_grocery
product-Owns todo = teddy_todo
product-Owns scribble_box = scribble_boxes
product-Owns scribble_keep = scribble_keeps
product-Owns scribble_keep_cloud = scribble_clouds

-- A token that names no product is granted every scope. One that names teddy.fyi is granted exactly
-- `all`, `todo` and `grocery`, and one that names ScribbleRoute exactly the three Scribble scopes; a
-- scope that is not granted is refused with a 403.
pub authorize_scope_iff :
    (claim : Option Product) (scope : SyncScope)
    → ((authorize_scope claim scope ≡ ok tt)
        ↔ ((claim ≡ none) ⊎ ((p : Product) × (claim ≡ some p) × Owns p scope)))
      × ((e : AppError) → authorize_scope claim scope ≡ err e → into_response e ≡ 403)
unfolding authorize_scope into_response
authorize_scope_iff none scope = (((λ e. inl refl), λ e. refl), λ e q. ground arith)
authorize_scope_iff (some p) scope =
    let same = product_eq_iff p (product scope) in
    (
      (
        λ e.
            let here : p ≡ product scope = same.0 (ground arith) in
            inr (p, refl, subst (λ q. Owns q scope) (sym here) (product-Owns scope)),
        granted,
      ),
      λ e q. ground arith,
    )
  where
    granted :
        (some p ≡ none) ⊎ ((q : Product) × (some p ≡ some q) × Owns q scope)
        → authorize_scope (some p) scope ≡ ok tt
    granted (inl e) = absurd (ground (arith, e))
    granted (inr (q, e, o)) =
        let here : p ≡ product scope = ground (arith, e, Owns-product q scope o) in
        ground (arith, product_eq_iff p (product scope), here)

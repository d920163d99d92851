-- ===== src/Sync/StreamLimits/Slots.antt =====
-- The slots that are held, and what the counts of src/routes/sync/stream_limits.rs say of them.
use teddy_fyi_api_rust.Prelude.{
  ℕ, zero, suc, ◌≤◌, ◌≡◌, refl, String, Option, none, some, List, [], ◌∷◌, ◌++◌, str_eq, str_eq_iff,
  if◌then◌else◌, arith, length,
}
use teddy_fyi_api_rust.Sync.StreamLimits.{
  StreamCaps, Counts, no_streams, active_for_user, try_acquire, release, StreamRefusal,
}

unfoldable pub slots_of : String → List String → ℕ
slots_of u [] = 0
slots_of u (user ∷ slots) = let n = slots_of u slots in if str_eq u user then suc n else n

-- A stream opens, is refused, or ends, wherever its slot stands.
pub data Step (caps : StreamCaps) : Counts → List String → Counts → List String → Type 0 where
  opened :
      (c : Counts) (slots : List String) (u : String)
      → (try_acquire caps u c).1 ≡ none
      → Step caps c slots (try_acquire caps u c).0 (u ∷ slots)
  turned_away :
      (c : Counts) (slots : List String) (u : String) (r : StreamRefusal)
      → (try_acquire caps u c).1 ≡ some r
      → Step caps c slots (try_acquire caps u c).0 slots
  dropped :
      (c : Counts) (before after : List String) (u : String)
      → Step caps c (before ++ u ∷ after) (release u c) (before ++ after)

pub data Reachable (caps : StreamCaps) : Counts → List String → Type 0 where
  here : Reachable caps no_streams []
  next :
      (c c' : Counts) (slots slots' : List String)
      → Reachable caps c slots
      → Step caps c slots c' slots'
      → Reachable caps c' slots'

-- The entry of an account that holds `n` slots: there is none at zero.
abbrev pub entry : ℕ → Option ℕ
entry zero = none
entry (suc n) = some (suc n)

-- The counts are those of the slots, and within the limits.
pub record Counted (caps : StreamCaps) (c : Counts) (slots : List String) : Type 0 where
  pub counts : (u : String) → c.per_user u ≡ entry (slots_of u slots)
  pub total_is : c.total ≡ length slots
  pub within_total : length slots ≤ caps.max_total
  pub within_user : (u : String) → slots_of u slots ≤ caps.max_per_user

slots_of-dropped :
    (u v : String) (before after : List String)
    → slots_of v (before ++ u ∷ after)
      ≡ (if str_eq v u then suc (slots_of v (before ++ after)) else slots_of v (before ++ after))
unfolding slots_of
slots_of-dropped u v [] after = refl
slots_of-dropped u v (w ∷ before) after = ground (arith, slots_of-dropped u v before after)

length-dropped :
    (u : String) (before after : List String)
    → length (before ++ u ∷ after) ≡ suc (length (before ++ after))
length-dropped u [] after = refl
length-dropped u (w ∷ before) after = omega (arith, length-dropped u before after)

active-entry : (u : String) (c : Counts) (n : ℕ) → c.per_user u ≡ entry n → active_for_user u c ≡ n
unfolding active_for_user
active-entry u c zero e = ground arith
active-entry u c (suc n) e = ground arith

Counted-Step :
    (caps : StreamCaps) (c c' : Counts) (slots slots' : List String)
    → 1 ≤ caps.max_per_user
    → Counted caps c slots
    → Step caps c slots c' slots'
    → Counted caps c' slots'
unfolding try_acquire release slots_of
Counted-Step caps _ _ _ _ pos k (opened c slots u e) =
    let n = active-entry u c (slots_of u slots) (k.counts u) in
    record {
      counts = λ v. ground (arith, k.counts v, n, str_eq_iff v u);
      total_is = ground (arith, k.total_is);
      within_total = ground (arith, k.total_is);
      within_user = λ v. ground (arith, k.within_user v, n, str_eq_iff v u);
    }
Counted-Step caps _ _ _ _ pos k (turned_away c slots u r e) =
    let n = active-entry u c (slots_of u slots) (k.counts u) in
    record {
      counts = λ v. ground (arith, k.counts v, n, str_eq_iff v u, pos);
      total_is = ground (arith, k.total_is);
      within_total = k.within_total;
      within_user = k.within_user;
    }
Counted-Step caps _ _ _ _ pos k (dropped c before after u) =
    let rest = slots_of-dropped u u before after in
    let fewer = length-dropped u before after in
    record {
      counts = λ v. ground (
        arith,
        k.counts v,
        k.counts u,
        rest,
        slots_of-dropped u v before after,
        str_eq_iff v u,
        str_eq_iff u u,
      );
      total_is = omega (arith, k.total_is, fewer);
      within_total = omega (arith, k.within_total, fewer);
      within_user = λ v. ground (arith, k.within_user v, slots_of-dropped u v before after);
    }

-- However streams open, are refused and end, the counts are those of the slots that are held: each
-- account's is the number of its slots, with no entry at zero, the total is their number, and neither
-- is over its limit, where an account may hold at least one.
pub Reachable-Counted :
    (caps : StreamCaps) (c : Counts) (slots : List String)
    → 1 ≤ caps.max_per_user
    → Reachable caps c slots
    → Counted caps c slots
unfolding slots_of
Reachable-Counted caps _ _ pos here = record {
  counts = λ u. refl;
  total_is = refl;
  within_total = omega arith;
  within_user = λ u. omega arith;
}
Reachable-Counted caps _ _ pos (next c c' slots slots' before step) =
    Counted-Step caps c c' slots slots' pos (Reachable-Counted caps c slots pos before) step

-- ===== src/Reconciler.antt =====
-- src/reconciler.ts: whether the stored position is the one on the chain. Texts are left out.
use bert_mm_bot.Prelude.{
  str_eq, Bool, true, false, not, ◌&&◌, ◌||◌, Option, none, some, if◌then◌else◌,
}
use bert_mm_bot.Amounts.{Arith}
use bert_mm_bot.Strategy.{PositionSnapshot}
use bert_mm_bot.StateStore.{StoredPosition}

pub data Mismatch : Type 0 where
  only_on_chain only_stored nft_mint_differs lower_price_differs upper_price_differs : Mismatch

pub data ReconcileResult : Type 0 where
  ok_empty ok_match : ReconcileResult
  mismatch : Mismatch → ReconcileResult

module _ {F : Type 0} ⦃num : Arith F⦄ where
  abbrev pub is_zero : F → Bool
  is_zero a = num.le a (num.lit 0 0) && num.le (num.lit 0 0) a

  abbrev pub larger : F → F → F
  larger a b = if num.lt a b then b else a

  unfoldable pub approx_equal : F → F → Bool
  approx_equal a b =
      if is_zero a && is_zero b
      then true
      else if is_zero a || is_zero b
      then false
      else num.lt (num.div (num.abs (num.sub a b)) (larger (num.abs a) (num.abs b))) (num.lit 1 1)

  unfoldable pub reconcile :
      Option (StoredPosition F) → Option (PositionSnapshot F) → ReconcileResult
  unfolding approx_equal
  reconcile none none = ok_empty
  reconcile none (some _) = mismatch only_on_chain
  reconcile (some _) none = mismatch only_stored
  reconcile (some s) (some c) =
      if not (str_eq s.nft_mint c.nft_mint)
      then mismatch nft_mint_differs
      else if not (approx_equal s.lower_usd c.range.lower_bert_usd)
      then mismatch lower_price_differs
      else if not (approx_equal s.upper_usd c.range.upper_bert_usd)
      then mismatch upper_price_differs
      else ok_match

-- ===== src/Radar/Guarantees/Filtering.antt =====
-- `apply_hard_filters` (src/umbral/application/radar/hard_filters.py).
use umbral.Prelude.{
  ℤ, pos, String, true, false, List, Option, none, some, ◌≡◌, refl, string_eq, contains, int_ltb,
  int_ltb_trans, arith,
}
use umbral.Radar.Profile.{Numbers, SearchProfile, CandidateListing}
use umbral.Radar.Filters.{
  strategy, excludes, zones_casefold, passes_price, passes_location, passes_rooms,
  apply_hard_filters,
}

module _ (n : Numbers) (casefold : String → String) where
  -- `q` asks for no more than `p`: it has the same operation and strategies, a budget that bounds no
  -- cost that `p`'s does not, every zone of `p`, and no more rooms.
  pub record IsRelaxed (p q : SearchProfile n) : Type 0 where
    pub operation : q.operation ≡ p.operation
    pub strategies : q.unknown_strategy ≡ p.unknown_strategy
    pub budget : (x : n.Number) → n.lt p.budget_max x ≡ false → n.lt q.budget_max x ≡ false
    pub zones :
        (z : String)
        → contains z (zones_casefold n casefold p) ≡ true
        → contains z (zones_casefold n casefold q) ≡ true
    pub rooms : int_ltb p.min_rooms q.min_rooms ≡ false

  passes_rooms-relaxed :
      (p q : SearchProfile n) (rooms : Option ℤ)
      → IsRelaxed p q
      → passes_rooms n casefold p rooms ≡ true
      → passes_rooms n casefold q rooms ≡ true
  unfolding passes_rooms excludes strategy
  passes_rooms-relaxed p q none h t = rw h.strategies t
  passes_rooms-relaxed p q (some rooms) h t =
      ground (arith, int_ltb_trans rooms p.min_rooms q.min_rooms, h.rooms, t)

  excludes-relaxed :
      (p q : SearchProfile n) (filter_name : String)
      → IsRelaxed p q
      → excludes n casefold q filter_name ≡ excludes n casefold p filter_name
  unfolding excludes strategy
  excludes-relaxed p q filter_name h = rw h.strategies refl

  passes_price-relaxed :
      (p q : SearchProfile n) (cost : Option n.Number)
      → IsRelaxed p q
      → passes_price n casefold p.budget_max cost ≡ true
      → passes_price n casefold q.budget_max cost ≡ true
  unfolding passes_price
  passes_price-relaxed p q none h t = absurd (ground (arith, t))
  passes_price-relaxed p q (some cost) h t = ground (arith, h.budget cost, t)

  passes_location-relaxed :
      (p q : SearchProfile n) (neighborhood : Option String)
      → IsRelaxed p q
      → passes_location n casefold (zones_casefold n casefold p) neighborhood ≡ true
      → passes_location n casefold (zones_casefold n casefold q) neighborhood ≡ true
  unfolding passes_location
  passes_location-relaxed p q none h t = absurd (ground (arith, t))
  passes_location-relaxed p q (some z) h t = h.zones (casefold z) t

  -- Relaxing a profile loses no candidate: a listing that passes the filters of a profile passes those of
  -- every profile that asks for no more.
  pub relaxing_keeps_candidates :
      (listing : CandidateListing n) (p q : SearchProfile n)
      → IsRelaxed p q
      → apply_hard_filters n casefold listing p ≡ true
      → apply_hard_filters n casefold listing q ≡ true
  unfolding apply_hard_filters
  relaxing_keeps_candidates listing p q h t = ground (
    arith,
    h.operation,
    excludes-relaxed p q "price" h,
    excludes-relaxed p q "location" h,
    passes_price-relaxed p q listing.total_cost h,
    passes_location-relaxed p q listing.neighborhood h,
    passes_rooms-relaxed p q listing.rooms h,
    int_ltb_trans q.min_rooms p.min_rooms (pos 0),
    int_ltb_trans (pos 0) p.min_rooms q.min_rooms,
    h.rooms,
    t,
  )

  -- Where the strategy for the price is not to exclude, the budget is not looked at: the answer is the
  -- same for every cost, the ones above the budget included.
  pub included_price_is_unbounded :
      (listing : CandidateListing n) (p : SearchProfile n) (cost : n.Number)
      → excludes n casefold p "price" ≡ false
      → apply_hard_filters n casefold (record listing { total_cost = some cost }) p
        ≡ apply_hard_filters n casefold listing p
  unfolding apply_hard_filters
  included_price_is_unbounded listing p cost off = ground (arith, off)

  passes_price-known :
      (total : Option n.Number) (budget_max : n.Number)
      → passes_price n casefold budget_max total ≡ true
      → (cost : n.Number) × (total ≡ some cost)
        × (n.le cost (n.of_int (pos 0)) ≡ false)
        × (n.lt budget_max cost ≡ false)
  unfolding passes_price
  passes_price-known none budget_max t = absurd (ground (arith, t))
  passes_price-known (some cost) budget_max t = (cost, refl, ground (arith, t), ground (arith, t))

  passes_location-known :
      (neighborhood : Option String) (zones : List String)
      → passes_location n casefold zones neighborhood ≡ true
      → (z : String) × (neighborhood ≡ some z) × (contains (casefold z) zones ≡ true)
  unfolding passes_location
  passes_location-known none zones t = absurd (ground (arith, t))
  passes_location-known (some z) zones t = (z, refl, t)

  passes_rooms-known :
      (p : SearchProfile n) (known : Option ℤ) (rooms : ℤ)
      → known ≡ some rooms
      → passes_rooms n casefold p known ≡ true
      → int_ltb rooms p.min_rooms ≡ false
  unfolding passes_rooms
  passes_rooms-known p known rooms eq t = ground (arith, rw eq at t)

  -- For a profile that excludes what has no known price or location, a listing that passes is for the
  -- profile's operation, has a known cost for which neither `cost <= 0` nor `budget < cost` holds,
  -- lies in one of the profile's zones, and has the rooms that are asked for if the profile asks for
  -- some and the listing's are known. Of the comparisons no law is used, so that a NaN, for which
  -- none of them holds, is not excluded.
  pub apply_hard_filters-within :
      (listing : CandidateListing n) (p : SearchProfile n)
      → excludes n casefold p "price" ≡ true
      → excludes n casefold p "location" ≡ true
      → apply_hard_filters n casefold listing p ≡ true
      → (listing.operation ≡ p.operation)
        × (((cost : n.Number) × (listing.total_cost ≡ some cost)
              × (n.le cost (n.of_int (pos 0)) ≡ false)
              × (n.lt p.budget_max cost ≡ false))
            × (((z : String) × (listing.neighborhood ≡ some z)
                  × (contains (casefold z) (zones_casefold n casefold p) ≡ true))
                × ((rooms : ℤ)
                    → listing.rooms ≡ some rooms
                    → int_ltb (pos 0) p.min_rooms ≡ true
                    → int_ltb rooms p.min_rooms ≡ false)))
  unfolding apply_hard_filters
  apply_hard_filters-within listing p price location t = (
    ground (arith, string_eq.same_iff listing.operation p.operation, t),
    (
      passes_price-known listing.total_cost p.budget_max (ground (arith, price, t)),
      (
        passes_location-known listing.neighborhood (zones_casefold n casefold p)
            (ground (arith, location, t)),
        λ rooms known asked.
            passes_rooms-known p listing.rooms rooms known (ground (arith, asked, t)),
      ),
    ),
  )

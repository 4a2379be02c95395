-- ===== src/Counter/Judge.antt =====
-- What a total is judged after any totals published (crates/km43/src/counter.rs).
use km.Prelude.{List, [], ◌∷◌, ℤ, pos, negsuc}
use km.Counter.Defs.{CounterRun, published}

-- Totals published one after another.
unfoldable pub publish_all : CounterRun → List ℤ → CounterRun
publish_all r [] = r
publish_all r (total ∷ totals) = publish_all (published r total) totals

abbrev pub AllNegative : List ℤ → Type 0
AllNegative [] = Unit {0}
AllNegative (pos n ∷ totals) = ⊥
AllNegative (negsuc n ∷ totals) = AllNegative totals

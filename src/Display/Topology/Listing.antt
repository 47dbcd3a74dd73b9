-- ===== src/Display/Topology/Listing.antt =====
-- The list of displays as its callers see it, and what counts as a change.
use libdrmtap.Prelude.{
  ℕ, ◌+◌, ◌-◌, ◌≡◌, Bool, true, false, ◌==◌, Option, none, some, List, [], ◌∷◌, ◌++◌, length, take,
}
use libdrmtap.Display.Topology.{Connector, connected, Card, Display, display_of, Found}

abbrev pub listed_if : Bool → Display → List Display → List Display
listed_if false d ds = ds
listed_if true d ds = d ∷ ds

-- The displays of the connected connectors, in order.
abbrev pub displays : Card → List (ℕ × Option Connector) → List Display
displays card [] = []
displays card ((id, none) ∷ cs) = displays card cs
displays card ((id, some c) ∷ cs) =
    listed_if (c.connection == connected) (display_of card c) (displays card cs)

abbrev Lists : Card → ℕ → List Display → Found → Found → Type 0
Lists card max_count ds s r =
    (r.found ≡ s.found + length ds) × (r.out ≡ s.out ++ take (max_count - s.found) ds)

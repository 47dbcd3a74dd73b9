-- ===== src/Tests/Context.antt =====
-- A machine with a render-only card, an idle one and two that drive displays.
use libdrmtap.Prelude.{ℕ, ◌*◌, ◌≡◌, ◌≤◌, refl, none, some, true, List, Option, [], ◌∷◌}
use libdrmtap.Context.{Scanned, Node, count_active, scan_nodes, scan_all, open_context}
use libdrmtap.Context.Ranked.{devices, IsFirstMax, scan_all-IsFirstMax}
use libdrmtap.Context.Render.{
  Entry, connector, render, rank_from, card_output_rank, pick_from, pick_scanout_render_node,
  ScansOut, Outranks, pick_scanout_render_node-Outranks,
}
use libdrmtap.Context.Opened.{Accounts, owned, open_context-Accounts}

abbrev on : Option Scanned
on = some (record { mode_valid = true; buffer_id = 5 })

abbrev off : Option Scanned
off = some (record { mode_valid = true; buffer_id = 0 })

abbrev nodes : List Node
nodes =
    record { fd = some 3; crtcs = none }
    ∷ record { fd = some 4; crtcs = some (off ∷ []) }
    ∷ record { fd = some 5; crtcs = some (on ∷ none ∷ []) }
    ∷ record { fd = some 6; crtcs = some (on ∷ off ∷ on ∷ []) }
    ∷ record { fd = none; crtcs = none }
    ∷ []

chosen_device : (scan_all nodes).1 ≡ some (record { minor = 3; fd = 6; active = 2 })
unfolding scan_nodes count_active
chosen_device = refl

scan_all-IsFirstMax_example : IsFirstMax (devices 0 nodes) (scan_all nodes).1
scan_all-IsFirstMax_example = scan_all-IsFirstMax nodes

abbrev tenfold : ℕ → ℕ
tenfold fd = 10 * fd

open_context-Accounts_example :
    Accounts tenfold 0
      (open_context none none (some 100) nodes).0
      (owned tenfold (open_context none none (some 100) nodes).1)
open_context-Accounts_example = open_context-Accounts tenfold none none (some 100) nodes

-- Card 1 has no connectors, card 2 has one that scans out.
abbrev two_gpus : List Entry
two_gpus = render 128 (some 1) ∷ render 129 (some 2) ∷ connector 2 true true ∷ []

picked_second : pick_scanout_render_node two_gpus ≡ some (129, 2)
unfolding pick_scanout_render_node pick_from rank_from
picked_second = refl

pick_scanout_render_node-Outranks_example :
    Outranks two_gpus none two_gpus (pick_scanout_render_node two_gpus)
    × ((card : ℕ)
        → (ScansOut card two_gpus → card_output_rank two_gpus card ≡ 2)
          × (2 ≤ card_output_rank two_gpus card → ScansOut card two_gpus))
pick_scanout_render_node-Outranks_example = pick_scanout_render_node-Outranks two_gpus

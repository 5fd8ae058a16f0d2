-- ===== src/Ncd/Manager/Loop.antt =====
-- Every key of the main loop of apps/ncd/main.c leaves two valid panes.
use harvac.Prelude.{ℕ, ◌≡◌, ◌⊎◌, List, [], ◌∷◌, Option, some}
use harvac.Ncd.Panel.{Panel}
use harvac.Hdk.Keys.{k_enter, k_esc}
use harvac.Ncd.Manager.{Tools, Ncd}
use harvac.Ncd.Manager.Handlers.{IsNcd}

-- An Enter or an Esc is among the keys.
abbrev pub EndsPrompt : List ℕ → Type 0
EndsPrompt [] = ⊥
EndsPrompt (k ∷ keys) = (k ≡ k_enter) ⊎ (k ≡ k_esc) ⊎ EndsPrompt keys

module _ {S : Type 0} (tools : Tools S) where
  -- A handler returns, with valid panes.
  abbrev pub Returns : Option (Ncd S) → Type 0
  Returns r = (n : Ncd S) × (r ≡ some n) × IsNcd n

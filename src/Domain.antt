-- ===== src/Domain.antt =====
-- What the commands on libvirt domains share: an action that only asks, and the calls that change
-- a domain.
use bcvk.Common.{[], ◌∷◌, Bool, true, false, ◌≡◌, ◌==◌, ◌||◌}
use bcvk.Host.{Action}

-- The virsh subcommands that change nothing.
abbrev pub is_query : Action → Bool
is_query (Action.virsh []) = true
is_query (Action.virsh (verb ∷ _)) =
    verb == "list" || verb == "domstate" || verb == "dominfo" || verb == "dumpxml"
is_query _ = false

abbrev pub IsQuery : Action → Type 0
IsQuery a = is_query a ≡ true

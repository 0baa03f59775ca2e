-- ===== src/Queue/Transitions.antt =====
-- The transition table `_ALLOWED_TRANSITIONS`.
use astra_froge.Common.{◌≡◌, Bool, false, List, [], ◌∷◌, any}
use astra_froge.Schemas.{
  ExecutionCommandState, pending, claimed, submitting, entry_confirmed, protection_pending,
  protected, completed, blocked, failed, recovery_required, expired, same_state,
}

-- `_ALLOWED_TRANSITIONS[state]`
unfoldable pub allowed_transitions : ExecutionCommandState → List ExecutionCommandState
allowed_transitions pending = claimed ∷ blocked ∷ expired ∷ []
allowed_transitions claimed = submitting ∷ blocked ∷ failed ∷ recovery_required ∷ expired ∷ []
allowed_transitions submitting = entry_confirmed ∷ blocked ∷ failed ∷ recovery_required ∷ []
allowed_transitions entry_confirmed = protection_pending ∷ recovery_required ∷ []
allowed_transitions protection_pending = protected ∷ failed ∷ recovery_required ∷ []
allowed_transitions protected = completed ∷ recovery_required ∷ []
allowed_transitions recovery_required = claimed ∷ blocked ∷ expired ∷ []
allowed_transitions completed = []
allowed_transitions blocked = []
allowed_transitions failed = []
allowed_transitions expired = []

-- `to_state in _ALLOWED_TRANSITIONS[from_state]`
unfoldable pub is_allowed : ExecutionCommandState → ExecutionCommandState → Bool
unfolding allowed_transitions
is_allowed from_state to_state = any (same_state to_state) (allowed_transitions from_state)

-- A state with no way out.
abbrev pub IsTerminal : ExecutionCommandState → Type 0
IsTerminal s = (t : ExecutionCommandState) → is_allowed s t ≡ false

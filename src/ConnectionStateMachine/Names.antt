-- ===== src/ConnectionStateMachine/Names.antt =====
-- The status names of cpp/src/connection_state_machine.cpp are read back, and no other text is.
use mini_ocs_nos.Base.{◌≡◌, ◌↔◌, refl, ap, ◌∙◌, arith}
use mini_ocs_nos.Base.Text.{Text, codes, text_discrete}
use mini_ocs_nos.Base.Outcome.{returns}
use mini_ocs_nos.ConnectionStateMachine.{
  ConnectionApplyStatus, absent, to_string, connection_apply_status_from_string,
}

read_back :
    (s : ConnectionApplyStatus) → connection_apply_status_from_string (to_string s) ≡ returns s
unfolding connection_apply_status_from_string to_string codes text_discrete
read_back absent = refl
read_back _ = refl

names_status :
    (v : Text) (s : ConnectionApplyStatus)
    → connection_apply_status_from_string v ≡ returns s
    → v ≡ to_string s
unfolding connection_apply_status_from_string to_string
names_status v s h = ground arith

-- A text is read as a status exactly if it is the status's name.
pub connection_apply_status_from_string_iff :
    (v : Text) (s : ConnectionApplyStatus)
    → (connection_apply_status_from_string v ≡ returns s) ↔ (v ≡ to_string s)
connection_apply_status_from_string_iff v s =
    (names_status v s, λ e. ap connection_apply_status_from_string e ∙ read_back s)

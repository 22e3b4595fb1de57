-- ===== src/Etsi004/Spec.antt =====
-- The constants of etsi004SpecV211.json that the simulated key manager reads, and the two look-ups
-- of services/webui-frontend/src/lib/sim/protocolLab/etsi004.ts into its status table.
use mathlib.Core.Option
use pqc_qkd_hybrid_network.Base.{
  ℕ, String, ◌≡◌, refl, Option, some, List, [], ◌∷◌, find, str_eq, ◌==◌,
}

pub data StatusId : Type 0 where
  successful peer_not_connected insufficient_key peer_app_not_connected : StatusId
  no_qkd_connection ksid_in_use timed_out qos_not_met metadata_too_small : StatusId

-- The text that a status id is.
unfoldable pub status_name : StatusId → String
status_name successful = "SUCCESSFUL"
status_name peer_not_connected = "PEER_NOT_CONNECTED"
status_name insufficient_key = "INSUFFICIENT_KEY"
status_name peer_app_not_connected = "PEER_APP_NOT_CONNECTED"
status_name no_qkd_connection = "NO_QKD_CONNECTION"
status_name ksid_in_use = "KSID_IN_USE"
status_name timed_out = "TIMEOUT"
status_name qos_not_met = "QOS_NOT_MET"
status_name metadata_too_small = "METADATA_TOO_SMALL"

pub record StatusEntry : Type 0 where
  pub code : ℕ
  pub id : String

-- `status_codes` of the spec file, without its paraphrases and references.
abbrev pub status_codes : List StatusEntry
status_codes =
    record { code = 0; id = "SUCCESSFUL" }
    ∷ record { code = 1; id = "PEER_NOT_CONNECTED" }
    ∷ record { code = 2; id = "INSUFFICIENT_KEY" }
    ∷ record { code = 3; id = "PEER_APP_NOT_CONNECTED" }
    ∷ record { code = 4; id = "NO_QKD_CONNECTION" }
    ∷ record { code = 5; id = "KSID_IN_USE" }
    ∷ record { code = 6; id = "TIMEOUT" }
    ∷ record { code = 7; id = "QOS_NOT_MET" }
    ∷ record { code = 8; id = "METADATA_TOO_SMALL" }
    ∷ []

-- `binding` of the spec file.
abbrev pub index_origin : ℕ
index_origin = 0

abbrev pub unknown_ksid_http : ℕ
unknown_ksid_http = 404

abbrev pub preferred_metadata_mimetype : String
preferred_metadata_mimetype = "application/json"

-- `statusCode`: `none` is the error that it throws for an id outside the file.
unfoldable pub status_code : StatusId → Option ℕ
unfolding status_name
status_code id = Option.map (λ s. s.code) (find (λ x. str_eq x.id (status_name id)) status_codes)

-- `statusById`: `none` is the error that it throws for a code outside the file.
unfoldable pub status_by_id : ℕ → Option StatusEntry
status_by_id code = find (λ x. x.code == code) status_codes

-- Every status id has a code in the file, and looking that code up gives the entry of that id: the
-- two look-ups never throw on the ids that the key manager answers with, and are inverse there.
pub status_by_id-status_code :
    (id : StatusId)
    → (c : ℕ) × (status_code id ≡ some c)
      × (status_by_id c ≡ some (record { code = c; id = status_name id }))
unfolding status_code status_by_id
status_by_id-status_code successful = (0, refl, refl)
status_by_id-status_code peer_not_connected = (1, refl, refl)
status_by_id-status_code insufficient_key = (2, refl, refl)
status_by_id-status_code peer_app_not_connected = (3, refl, refl)
status_by_id-status_code no_qkd_connection = (4, refl, refl)
status_by_id-status_code ksid_in_use = (5, refl, refl)
status_by_id-status_code timed_out = (6, refl, refl)
status_by_id-status_code qos_not_met = (7, refl, refl)
status_by_id-status_code metadata_too_small = (8, refl, refl)

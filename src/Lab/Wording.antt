-- ===== src/Lab/Wording.antt =====
-- The texts of services/webui-frontend/src/lib/sim/protocolLab/etsi004.ts and of its specification file
-- that the protocol lab writes into its timeline.
use mathlib.Core.Option
use pqc_qkd_hybrid_network.Base.{
  ℕ, String, Bool, false, Option, none, some, [], ◌∷◌, ◌==◌, if◌then◌else◌,
}
use pqc_qkd_hybrid_network.Base.Text.{decimal, text}
use pqc_qkd_hybrid_network.Etsi004.Spec.{StatusId, status_code}
use pqc_qkd_hybrid_network.Etsi004.Stream.{
  Detail, predefined_not_simulated, another_pair, not_reused, already_opened, no_route,
  chunk_not_multiple, min_above_capacity, mimetype_unsupported, unknown_or_closed, no_working_link,
  already_delivered, not_relayed_yet, unknown_ksid, already_closed, CallResult,
}

-- The text of a detail, for a key of so many bytes.
unfoldable pub detail_text : ℕ → Detail → String
unfolding text decimal
detail_text key_bytes predefined_not_simulated =
    "not simulated: predefined Key_stream_IDs (clause 6.2.4) block until the peer opens; only the null-KSID sequence of clause 6.2.2 is modelled here"
detail_text key_bytes another_pair = "Key_stream_ID belongs to another application pair"
detail_text key_bytes not_reused = "a closed Key_stream_ID is not reused"
detail_text key_bytes already_opened = "this side already opened the stream"
detail_text key_bytes no_route = "no route of working QKD links between the two KMs"
detail_text key_bytes chunk_not_multiple =
    text (
      "Key_chunk_size must be a multiple of " ∷ decimal key_bytes ∷ " bytes (one relayed key)" ∷ [])
detail_text key_bytes min_above_capacity =
    "Min_bps above the route's bottleneck rate (reported rates, bottleneck of the current route)"
detail_text key_bytes mimetype_unsupported = "only application/json metadata is supported"
detail_text key_bytes unknown_or_closed = "unknown or closed Key_stream_ID"
detail_text key_bytes no_working_link = "the route between the two KMs has no working link"
detail_text key_bytes already_delivered = "that index was already delivered to this side and erased"
detail_text key_bytes not_relayed_yet = "no chunk relayed for this index yet"
detail_text key_bytes unknown_ksid = "unknown Key_stream_ID"
detail_text key_bytes already_closed = "already closed"

-- `statusById(code).paraphrase`; the empty text stands for the error that it throws.
unfoldable pub paraphrase : ℕ → String
paraphrase code =
    if code == 0
    then "The call succeeded."
    else if code == 1
    then "The association was created, but the peer application has not connected yet."
    else if code == 2
    then "Not enough key was available to serve the request."
    else if code == 3
    then "The peer application has not connected to this stream yet."
    else if code == 4
    then "No QKD connection is available."
    else if code == 5
    then "The requested Key_stream_ID is already in use."
    else if code == 6
    then "The call did not complete within the QoS Timeout."
    else if code == 7
    then "The requested QoS could not be met; the returned QoS is a counter-proposal."
    else if code == 8
    then "The metadata buffer was too small; no key was delivered and the returned Metadata_size is the size needed."
    else ""

-- `r.status === statusCode(id)`
unfoldable pub is_status : StatusId → CallResult → Bool
unfolding status_code
is_status id r = elim r.status [
  | none ↦ false
  | some c ↦ elim (status_code id) [ none ↦ false | some d ↦ c == d ]
]

-- `r.detail ?? statusById(r.status ?? 0).paraphrase`
unfoldable pub failure_text : ℕ → CallResult → String
unfolding detail_text paraphrase
failure_text key_bytes r = elim r.detail [
  | some d ↦ detail_text key_bytes d
  | none ↦ paraphrase (Option.get_or r.status 0)
]

abbrev number_text : Option ℕ → String
number_text none = "null"
number_text (some c) = decimal c

-- What `log004` writes of a call and its result. A status that is null is printed as such.
unfoldable pub call_text : ℕ → String → CallResult → String
unfolding text decimal detail_text
call_text key_bytes call r =
    let answer : String = elim r.http [
      | some h ↦ text ("HTTP " ∷ decimal h ∷ [])
      | none ↦ text ("status " ∷ number_text r.status ∷ [])
    ] in
    let why : String = elim r.detail [
      | none ↦ ""
      | some d ↦ text (" (" ∷ detail_text key_bytes d ∷ ")" ∷ [])
    ] in
    text (call ∷ ": " ∷ answer ∷ why ∷ [])

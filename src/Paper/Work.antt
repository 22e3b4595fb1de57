-- ===== src/Paper/Work.antt =====
-- `runPhase` of `PaperSim` (services/webui-frontend/src/lib/sim/paperSim.ts): the work of a phase, and the
-- move to the next phase or cycle.
use mathlib.Core.Option
use pqc_qkd_hybrid_network.Base.{
  ℕ, ◌+◌, ◌-◌, ◌*◌, ◌/◌, ◌%◌, Bool, true, false, ◌&&◌, ◌||◌, Option, none, some, List, [], ◌∷◌,
  ◌++◌, length, take, leb, ltb, ◌==◌, if◌then◌else◌,
}
use pqc_qkd_hybrid_network.E2e.Crypto.{
  Noble, World, encode_utf8, digits, to_hex, derive_hkdf_sha3, chacha_seal,
}
use pqc_qkd_hybrid_network.E2e.Fields.{is_running, is_null}
use pqc_qkd_hybrid_network.Paper.State.{
  Layer, PhaseBudget, budget_of, phase_of_layer, Detail, PhaseRec,
}
use pqc_qkd_hybrid_network.Paper.Fields.{Sim, emit, enter_phase, begin_cycle}

-- A digit of `btoa`: A to Z, a to z, 0 to 9, + and /.
abbrev pub b64_digit : ℕ → ℕ
b64_digit n =
    if ltb n 26
    then 65 + n
    else if ltb n 52
    then 71 + n
    else if ltb n 62
    then n - 4
    else if n == 62
    then 43
    else 47

-- `b64`: four digits for each three bytes, filled up with =.
unfoldable pub b64 : List ℕ → List ℕ
b64 [] = []
b64 (a ∷ []) = b64_digit (a / 4) ∷ b64_digit (a % 4 * 16) ∷ 61 ∷ 61 ∷ []
b64 (a ∷ b ∷ []) =
    b64_digit (a / 4) ∷ b64_digit (a % 4 * 16 + b / 16) ∷ b64_digit (b % 16 * 4) ∷ 61 ∷ []
b64 (a ∷ b ∷ c ∷ rest) =
    b64_digit (a / 4)
    ∷ b64_digit (a % 4 * 16 + b / 16)
    ∷ b64_digit (b % 16 * 4 + c / 64)
    ∷ b64_digit (c % 64)
    ∷ b64 rest

-- `failedThisPhase`
abbrev pub fails_at : Option Layer → ℕ → Bool
fails_at none phase = false
fails_at (some l) phase = phase_of_layer l == phase

-- What the work of a phase comes to.
pub record Worked : Type 0 where
  pub sim : Sim
  pub packets : ℕ
  pub bytes : ℕ
  pub detail : Detail

abbrev pub detail_of : PhaseBudget → Bool → Detail
detail_of b failed = record {
  period_s = b.period_s;
  grace_s = b.grace_s;
  failed = failed;
  hop_psk_prefix = none;
  sealed = none;
}

abbrev pub plain_work : PhaseBudget → Bool → Sim → Worked
plain_work b failed s = record {
  sim = s;
  packets = b.packets;
  bytes = b.bytes;
  detail = detail_of b failed;
}

-- The plain text of phase 5.
unfoldable pub payload : Sim → List ℕ
payload s =
    encode_utf8 "PAPER-FLOW cycle "
    ++ digits s.cycles_total s.cycles_total
    ++ encode_utf8 " hops="
    ++ digits s.hop s.hop
    ++ encode_utf8 " Alice->Bob"

-- The last open record of the phase, completed; nothing where there is none.
unfoldable pub close_open : World → ℕ → Worked → List PhaseRec → Option (List PhaseRec)
close_open w phase done [] = none
close_open w phase done (r ∷ rs) = elim (close_open w phase done rs) [
  | some rs' ↦ some (r ∷ rs')
  | none ↦
      if r.phase == phase && is_null r.completed_at
      then some (
          record r {
            completed_at = some w.date_now;
            packets = done.packets;
            bytes = done.bytes;
            detail = some done.detail;
          }
          ∷ rs)
      else none
]

-- What a phase adds to the totals and to its record.
unfoldable pub account : World → ℕ → Worked → Sim
account w phase done =
    let s = done.sim in
    record s {
      packets_total = s.packets_total + done.packets;
      bytes_total = s.bytes_total + done.bytes;
      history = Option.get_or (close_open w phase done s.history) s.history;
    }

-- The end of a cycle, and the next one if the run goes on.
unfoldable pub end_cycle : World → Sim → Sim
end_cycle w s =
    let ended : Sim = record s {
      cycles_succeeded = if s.cycle_accepted then s.cycles_succeeded + 1 else s.cycles_succeeded;
      phase = 0;
    } in
    if is_running s.status then begin_cycle w ended else ended

-- After the work of a phase.
unfoldable pub move_on : World → ℕ → Bool → Sim → Sim
move_on w phase failed s =
    if failed || leb 5 phase then end_cycle w s else enter_phase w (phase + 1) s

-- The failure of a phase fails its cycle.
abbrev pub note_failed : Bool → Sim → Sim
note_failed failed s = if failed then record s { cycle_accepted = false } else s

abbrev pub with_hop_psk : List ℕ → Worked → Worked
with_hop_psk prefix done = record done {
  detail = record done.detail { hop_psk_prefix = some prefix };
}

-- What phase 5 leaves, once the payload is sealed: the nonce travels with the ciphertext.
unfoldable pub seal_work : PhaseBudget → Sim → List ℕ → List ℕ → List ℕ → Worked
seal_work b s psk ciphertext nonce =
    let size = length ciphertext + length nonce in
    record {
      sim = record s { last_payload = b64 ciphertext };
      packets = 1;
      bytes = size;
      detail = record (detail_of b false) {
        sealed = some (record { data_bytes = size; psk_prefix = take 16 (to_hex psk) });
      };
    }

module _ (noble : Noble) (w : World) where
  -- The pre-shared key of the data tunnel, from the secret of phase 4 alone.
  unfoldable pub tunnel_psk : List ℕ → List ℕ
  tunnel_psk secret = derive_hkdf_sha3 noble [] secret (encode_utf8 "paper-flow")

  unfoldable pub hop_psk : List ℕ → List ℕ
  hop_psk key = derive_hkdf_sha3 noble key [] (encode_utf8 "paper-flow-hop")

  -- The work of phase 5: nothing where it throws.
  unfoldable pub data_work : PhaseBudget → Sim → Option Worked
  data_work b s = elim s.pqc_secret [
    | none ↦ none
    | some secret ↦
        Option.map (λ r. seal_work b s (tunnel_psk secret) r.0 r.1)
          (chacha_seal noble w 0 (tunnel_psk secret) (payload s))
  ]

  abbrev pub hop_work : PhaseBudget → Sim → Worked
  hop_work b s = elim s.qkd_key [
    | none ↦ plain_work b false s
    | some key ↦ with_hop_psk (take 16 (to_hex (hop_psk key))) (plain_work b false s)
  ]

  -- The work of a phase that has not failed.
  unfoldable pub work_of : PhaseBudget → Sim → Option Worked
  work_of b s =
      if b.phase == 2
      then some (plain_work b false (record s { qkd_key = some (w.draw 0 32) }))
      else if b.phase == 3
      then some (hop_work b s)
      else if b.phase == 4
      then some (plain_work b false (record s { pqc_secret = some (w.draw 0 32) }))
      else if b.phase == 5
      then data_work b s
      else some (plain_work b false s)

  -- `runPhase` of a phase that has a budget. Nothing is changed before it throws.
  unfoldable pub run_budget : PhaseBudget → Sim → Option Sim
  run_budget b s =
      let failed = fails_at s.fail_layer b.phase in
      let noted = note_failed failed s in
      let work = if failed then some (plain_work b true noted) else work_of b noted in
      Option.map (λ done. emit (move_on w b.phase failed (account w b.phase done))) work

  -- `runPhase`. Phase 0 has no budget, and throws.
  unfoldable pub run_phase : Sim → Option Sim
  run_phase s = elim (budget_of s.phase) [ none ↦ none | some b ↦ run_budget b s ]

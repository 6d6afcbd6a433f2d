-- ===== src/Stats.antt =====
-- stats.py: the counters of one run.
use cps344finalproject.Base.{ℕ, Option, none, some, List, []}
use cps344finalproject.Base.Float.{Float, num, maxf}

-- `completed_sequences` is a set: the list of its members, in the order in which they came.
pub record RunStats (F : Type 0) : Type 0 where
  pub packets_sent : ℕ
  pub packets_delivered : ℕ
  pub packets_dropped : ℕ
  pub retransmissions : ℕ
  pub duplicate_packets : ℕ
  pub acknowledgements : ℕ
  pub start_time_ms : Option F
  pub end_time_ms : Option F
  pub completed_sequences : List ℕ

module _ {F : Type 0} where
  abbrev pub new_stats : RunStats F
  new_stats = record {
    packets_sent = 0;
    packets_delivered = 0;
    packets_dropped = 0;
    retransmissions = 0;
    duplicate_packets = 0;
    acknowledgements = 0;
    start_time_ms = none;
    end_time_ms = none;
    completed_sequences = [];
  }

  abbrev pub mark_started : F → RunStats F → RunStats F
  mark_started now st = elim st.start_time_ms [
    | none ↦ record st { start_time_ms = some now }
    | some _ ↦ st
  ]

  abbrev pub mark_finished : F → RunStats F → RunStats F
  mark_finished now st = record st { end_time_ms = some now }

module _ {F : Type 0} ⦃fl : Float F⦄ where
  -- `completion_time_ms`
  unfoldable pub completion_time_ms : RunStats F → F
  completion_time_ms st = elim st.start_time_ms [
    | none ↦ num 0
    | some started ↦
        maxf (num 0) (fl.sub (elim st.end_time_ms [ none ↦ started | some ended ↦ ended ]) started)
  ]

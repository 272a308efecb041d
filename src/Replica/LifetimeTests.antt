-- ===== src/Replica/LifetimeTests.antt =====
-- Two members of one group: the one retains the values of two slots, the other that of the first.
use raxos.Prelude.{ℕ, ◌≡◌, ◌≢◌, ◌⊎◌, ◌++◌, ◌+◌, some, refl, List, [], ◌∷◌, length, arith}
use raxos.Prelude.Map
use raxos.Prelude.Map.{Map}
use raxos.Prelude.Map.Total.{total}
use raxos.Prelude.Ordered.{nat_ord}
use raxos.Types.{id_ord}
use raxos.Codec.{
  decode_batch, decode_whole, batch_reader, decode_counted, decode_command, decode_command_id,
  decode_bytes, read_many, read_u8, read_u32, read_u64, read_bytes, from_le_bytes, finished,
  reject_if, pure, ◌>>=◌,
}
use raxos.Pool
use raxos.Pool.Dedup.{mark_delivered, mark_seq, drain, origin_of}
use raxos.Replica.{Replica, Action, deliver, refresh_pool_pending}
use raxos.Replica.Retention.{
  try_deliver, maybe_gc, deliver_loop, deliver_batch, free_acked, free_over_budget,
}
use raxos.Replica.Retention.Retaining.{IsRetaining}
use raxos.Replica.Retention.Batches.{marked}
use raxos.Replica.Retention.Lifetime.{IsOf, begins, delivers, Lifetime-agree}
use raxos.Replica.Tests.{member, value, batch, log, after_one, after_two, both}

abbrev ahead : Replica
ahead = record member { retained = log; retained_bytes = length value + length value }

abbrev behind : Replica
behind = record member { retained = (1, value) ∷ []; retained_bytes = length value }

ahead-IsRetaining : IsRetaining ahead
unfolding total Map.get
ahead-IsRetaining = record {
  sorted = ((refl, tt), (tt, tt));
  counted = refl;
  kept = λ s l b. absurd (omega arith);
  freed = λ s l. ground arith;
  behind = omega arith;
  word = omega arith;
}

behind-IsRetaining : IsRetaining behind
unfolding total Map.get
behind-IsRetaining = record {
  sorted = (tt, tt);
  counted = refl;
  kept = λ s l b. absurd (omega arith);
  freed = λ s l. ground arith;
  behind = omega arith;
  word = omega arith;
}

ahead-IsOf : IsOf (λ t. value) log
unfolding Map.get
ahead-IsOf t v e = ground (arith, e)

behind-IsOf : IsOf (λ t. value) behind.retained
unfolding Map.get
behind-IsOf t v e = ground (arith, e)

abbrev told_both : Replica
told_both = record ahead {
  decided_contig = 2;
  dedup = after_two;
  actions = both;
  peer_acked = 0 ∷ 2 ∷ 0 ∷ [];
}

abbrev told_first : Replica
told_first = record behind {
  decided_contig = 1;
  dedup = after_one;
  actions = deliver 1 batch ∷ [];
  peer_acked = 0 ∷ 1 ∷ 0 ∷ [];
}

both_deliver : (try_deliver 9 behind ≡ some told_first) × (try_deliver 9 ahead ≡ some told_both)
unfolding try_deliver maybe_gc deliver_loop deliver_batch free_acked free_over_budget
    refresh_pool_pending Pool.remove Pool.has_unassigned Map.get Map.insert Map.remove
    mark_delivered mark_seq drain origin_of marked decode_batch decode_whole batch_reader
    decode_counted decode_command decode_command_id decode_bytes read_many read_u8 read_u32 read_u64
    read_bytes from_le_bytes finished reject_if pure ◌>>=◌
both_deliver = (refl, refl)

Lifetime-agree_example :
    (rest : List Action) × (both ≡ (deliver 1 batch ∷ []) ++ rest)
    × ((◌≢◌ {A = ℕ} 1 2) ⊎ ((rest ≡ []) × (after_one ≡ after_two)))
Lifetime-agree_example =
    Lifetime-agree (λ t. value) (deliver 1 batch ∷ []) both 1 2 after_one after_two
      (delivers 9 behind told_first [] (deliver 1 batch ∷ []) begins behind-IsRetaining
        (omega arith) behind-IsOf both_deliver.0 refl)
      (delivers 9 ahead told_both [] both begins ahead-IsRetaining (omega arith) ahead-IsOf
        both_deliver.1 refl)
      (omega arith)

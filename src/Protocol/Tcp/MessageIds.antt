-- ===== src/Protocol/Tcp/MessageIds.antt =====
-- internal/protocol/tcp/client.go: the message IDs and tokens of a client's requests. The counter is
-- the client's `nextID`, which NewClient sets to 1; concurrent calls are taken one after the other.
use spark_server.Base.{
  ℕ, zero, suc, ◌+◌, ◌/◌, ◌%◌, ◌≤◌, ◌<◌, ◌≡◌, ◌≢◌, [], ◌∷◌, Bytes, ltb, if◌then◌else◌, arith,
}

abbrev pub first_id : ℕ
first_id = 1

-- The ID and the counter after the call.
unfoldable pub next_message_id : ℕ → ℕ × ℕ
next_message_id counter =
    let next = (counter + 1) % 4294967296 in if ltb 0xffff next then (1, 1) else (next, next)

unfoldable pub token_for_message_id : ℕ → Bytes
token_for_message_id id = (id / 256 % 256) ∷ (id % 256) ∷ []

-- The counter after some calls, and the ID that the call behind them gives.
abbrev pub counter_after : ℕ → ℕ
counter_after zero = first_id
counter_after (suc n) = (next_message_id (counter_after n)).1

abbrev pub id_after : ℕ → ℕ
id_after n = (next_message_id (counter_after n)).0

counter_cycle : (n : ℕ) → counter_after n ≡ n % 65535 + 1
unfolding next_message_id
counter_cycle zero = omega arith
counter_cycle (suc n) = ground (arith, counter_cycle n)

id_cycle : (n : ℕ) → id_after n ≡ (n + 1) % 65535 + 1
unfolding next_message_id
id_cycle n = ground (arith, counter_cycle n)

-- The tokens of two IDs of 16 bits are the same only if the IDs are.
token_for_message_id-injective :
    (i j : ℕ) → i < 65536 → j < 65536 → token_for_message_id i ≡ token_for_message_id j → i ≡ j
unfolding token_for_message_id
token_for_message_id-injective i j hi hj e = ground arith

-- Every message ID that a client gives is from 1 to 65535, and those of two calls fewer than 65535
-- apart differ, and so do the tokens made of them.
pub ids_differ :
    (m n : ℕ)
    → m < n
    → n < m + 65535
    → (1 ≤ id_after m)
      × (id_after m ≤ 65535)
      × (id_after m ≢ id_after n)
      × (token_for_message_id (id_after m) ≢ token_for_message_id (id_after n))
ids_differ m n before near =
    let i = id_cycle m in
    let j = id_cycle n in
    let differ : id_after m ≢ id_after n = λ e. omega (arith, i, j, e) in
    (
      omega (arith, i),
      omega (arith, i),
      differ,
      λ e. differ (
          token_for_message_id-injective (id_after m) (id_after n) (omega (arith, i))
            (omega (arith, j)) e),
    )

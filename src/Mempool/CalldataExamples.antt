-- ===== src/Mempool/CalldataExamples.antt =====
-- Tests of the calldata decoder, and its theorem at a concrete input: a multicall of one dispute.
use rust_uma.Prelude.{ℕ, ◌≡◌, refl, none, [], ◌∷◌, ◌++◌, length, replicate, Bytes}
use rust_uma.Mempool.Call.{dispute, OracleCall, u64_word, be_value}
use rust_uma.Mempool.Calldata.{
  decode_input, decode_multicall, decode_items, decode_one, decode_args, get_range, word, usize_at,
  small_word, dynamic_bytes, address, select, actor_at, price_at, sel_dispute, sel_multicall,
}
use rust_uma.Mempool.Calldata.Shapes.{Shaped, decode_input_lem}

abbrev word_of : ℕ → Bytes
word_of n = replicate 31 0 ++ (n ∷ [])

-- Requester 7, identifier 8, timestamp 9 and the two ancillary bytes 5 and 6.
abbrev dispute_input : Bytes
dispute_input =
    sel_dispute
    ++ (word_of 7 ++ (word_of 8 ++ (word_of 9 ++ (word_of 128 ++ (word_of 2 ++ (5 ∷ 6 ∷ []))))))

abbrev multicall_input : Bytes
multicall_input =
    sel_multicall
    ++ (word_of 32
        ++ (word_of 1 ++ (word_of 32 ++ (word_of (length dispute_input) ++ dispute_input))))

abbrev disputed : OracleCall
disputed = record {
  kind = dispute;
  requester = replicate 19 0 ++ (7 ∷ []);
  identifier = word_of 8;
  timestamp = word_of 9;
  ancillary = 5 ∷ 6 ∷ [];
  price = replicate 32 0;
  actor = none;
}

a_call_is_decoded : decode_input dispute_input ≡ disputed ∷ []
unfolding decode_input decode_multicall decode_items decode_one decode_args get_range word usize_at
    small_word dynamic_bytes address select actor_at price_at u64_word be_value
a_call_is_decoded = refl

a_multicall_is_decoded : decode_input multicall_input ≡ disputed ∷ []
unfolding decode_input decode_multicall decode_items decode_one decode_args get_range word usize_at
    small_word dynamic_bytes address select actor_at price_at u64_word be_value
a_multicall_is_decoded = refl

a_short_input_is_no_call : decode_input (251 ∷ 167 ∷ []) ≡ []
unfolding decode_input decode_one get_range
a_short_input_is_no_call = refl

decode_input_lem_example : Shaped 256 (decode_input multicall_input)
decode_input_lem_example = decode_input_lem multicall_input

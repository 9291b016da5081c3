-- ===== src/Watchlist/Tests.antt =====
-- Runs of the watchlist on a list of items.
use ai_trader_api.Base.{
  ℕ, zero, suc, ◌≡◌, refl, ◌≤◌, true, none, List, [], ◌∷◌, filter, length, arith,
}
use ai_trader_api.Base.Text.{trim, Text, units}
use ai_trader_api.Base.Action.{ok, err}
use ai_trader_api.Base.Collection.{Collection, list_collection, list_collection-IsLawful}
use ai_trader_api.Watchlist.{
  WatchlistItem, same_item, already_there, invalid_symbol, is_symbol, is_users, add, remove,
  check_add, insert_new, compiled_union, max_watchlist_size,
}
use ai_trader_api.Watchlist.Limit.{Call, add_call, remove_call, run, run-AllWithinLimit}

abbrev items : Collection (List WatchlistItem) WatchlistItem
items = list_collection same_item

abbrev same : Text → Text
same s = s

abbrev tcs : WatchlistItem
tcs = record { user_id = "u"; symbol = units "TCS"; exchange = units "NSE"; created_at = 7 }

abbrev infy : WatchlistItem
infy = record tcs { symbol = units "INFY" }

symbol_run : is_symbol (units "NIFTY 50") ≡ true
unfolding is_symbol
symbol_run = refl

add_run : add items same "u" (units " TCS ") (units "NSE") 7 [] ≡ (ok tcs, tcs ∷ [])
unfolding add check_add is_symbol trim insert_new
add_run = refl

again_run : (add items same "u" (units "TCS") (units "NSE") 8 (tcs ∷ [])).0 ≡ err already_there
unfolding add check_add is_symbol trim insert_new
again_run = refl

bad_symbol_run : (add items same "u" (units "tcs") (units "NSE") 7 []).0 ≡ err invalid_symbol
unfolding add check_add is_symbol trim
bad_symbol_run = refl

remove_run : remove items same "u" (units "TCS") (units "NSE") (tcs ∷ infy ∷ []) ≡ (true, infy ∷ [])
unfolding remove trim
remove_run = refl

union_run : length (compiled_union items same (tcs ∷ record tcs { user_id = "v" } ∷ infy ∷ [])) ≡ 2
unfolding compiled_union
union_run = refl

-- Fourteen items of one user.
abbrev copies : ℕ → List WatchlistItem
copies zero = []
copies (suc n) = record tcs { created_at = n } ∷ copies n

-- Two adds whose checks both come before either insertion pass the limit.
interleaved_run :
    let s = copies 14 in
    (check_add items same "u" (units "INFY") s ≡ none)
    × (length
          (insert_new items same
            (record infy { symbol = units "WIPRO" })
            (insert_new items same infy s).1).1
        ≡ 16)
unfolding check_add is_symbol insert_new
interleaved_run = (refl, refl)

abbrev calls : List Call
calls =
    add_call "u" (units "TCS") (units "NSE") 7
    ∷ remove_call "u" (units "TCS") (units "NSE")
    ∷ add_call "v" (units "TCS") (units "NSE") 9
    ∷ []

run-AllWithinLimit_example :
    length (filter (is_users "u") (run items same calls [])) ≤ max_watchlist_size
run-AllWithinLimit_example =
    run-AllWithinLimit items same (list_collection-IsLawful same_item) calls []
      (λ user. omega arith) "u"

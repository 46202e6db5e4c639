-- ===== src/NowhereSse/Tests.antt =====
-- Runs of `useNowhereSSE` on concrete events, and its theorems at them.
use nowhere_dash.Base.{true, [], ◌∷◌, some, none, codes, ◌≡◌, ◌≢◌, refl}
use nowhere_dash.NowhereSse.{Endpoint, Stream, initial, connect_manually, handle_open, reconnect}
use nowhere_dash.NowhereSse.Sources.{
  IsOwned, Reach, here, next, connect_called, opened, Reach-IsOwned, reconnect_fresh,
}

abbrev complete : Endpoint
complete = record { url = codes "http://m"; api_path = codes "/api"; api_key = codes "k" }

abbrev keyless : Endpoint
keyless = record { url = codes "http://m"; api_path = codes "/api"; api_key = [] }

abbrev started_stream : Stream
started_stream = connect_manually none (some complete) (initial (some complete))

abbrev connected_stream : Stream
connected_stream = handle_open started_stream

connected_stream-Reach : Reach (initial (some complete)) connected_stream
unfolding connect_manually
connected_stream-Reach = next (next here (connect_called none)) (opened 0 refl)

Reach-IsOwned_example : IsOwned connected_stream
Reach-IsOwned_example = Reach-IsOwned connected_stream-Reach

reconnect_fresh_example :
    ((reconnect none (some complete) connected_stream).source ≡ some connected_stream.made)
    × ((reconnect none (some complete) connected_stream).open_sources ≡ connected_stream.made ∷ [])
    × ((reconnect none (some complete) connected_stream).is_connecting ≡ true)
    × ((reconnect (some (codes "bad")) (some complete) connected_stream).source ≡ none)
    × ((reconnect (some (codes "bad")) (some complete) connected_stream).open_sources ≡ [])
    × ((reconnect (some (codes "bad")) (some complete) connected_stream).error ≢ none)
unfolding handle_open
reconnect_fresh_example = reconnect_fresh complete (codes "bad") connected_stream-Reach refl refl

-- ===== src/Relay/Delivery.antt =====
-- From one client to the other through the whole relay.
use icy_easy_send.Base.{ℕ, ◌≡◌, sym, ◌∙◌, List, length}
use icy_easy_send.Auth.{Crypto}
use icy_easy_send.Config.{Config}
use icy_easy_send.Limit.{Rate}
use icy_easy_send.Limit.Bandwidth.{Shaper}
use icy_easy_send.Stream.Registry.Closing.{IsOpen}
use icy_easy_send.Stream.Handler.{downloaded, uploaded}
use icy_easy_send.Stream.Handler.Pump.{Round}
use icy_easy_send.Stream.Transfer.{Transfer}
use icy_easy_send.Stream.Transfer.Complete.{transfer_is_complete}
use icy_easy_send.Signal.Server.{Codec}
use icy_easy_send.Relay.{answered, System, streams_of, Reach}
use icy_easy_send.Stream.Handler.Copying.{source, IsPrefix}
use icy_easy_send.Stream.Transfer.Bytes.{IsHonest}
use icy_easy_send.Relay.Together.{Meeting, Together}
use icy_easy_send.Relay.Together.InStep.{Together-IsInStep, answer_of}

module _ (rate : Rate) (shaper : Shaper) (codec : Codec) (crypto : Crypto) (cfg : Config) where
  -- What goes into the relay comes out of it. Let two requests be at work on one stream, an upload and a
  -- download, on a pipe that nothing has closed, in any state that the relay reaches. Then whatever
  -- else happens in the relay meanwhile, in any order: connections, messages, sweeps, departures,
  -- other requests, also for the same stream: what the downloading client has got is at every moment a
  -- prefix of what the body of the upload gives. If the download is answered without an error, the
  -- client has got all of it. If the uploading client is told that `n` bytes were uploaded, `n` is the
  -- length of the body. No renewal of a deadline may report the end of a file.
  pub whole_file_or_error :
      (max : ℕ) (body : List Round) (x₀ : System rate shaper) (g : Meeting x₀.requests)
      (x : System rate shaper) (t : Transfer)
      → Reach rate shaper codec crypto cfg x₀
      → IsHonest body
      → IsOpen ((streams_of rate shaper x₀).ends g.up.stream.id)
      → Together rate shaper codec crypto cfg max body x₀ g x t
      → IsPrefix t.down.written (source body)
        × (x.requests g.download ≡ answered downloaded → t.down.written ≡ source body)
        × ((n : ℕ) → x.requests g.upload ≡ answered (uploaded n) → n ≡ length (source body))
  whole_file_or_error max body x₀ g x t r₀ honest open_pipe run =
      let v = Together-IsInStep rate shaper codec crypto cfg max body x₀ g r₀ run in
      let c =
        transfer_is_complete g.up.stream max (streams_of rate shaper x₀) body t honest open_pipe
          v.moved in
      (
        c.0,
        λ got. (c.1 (answer_of g.down t.answer_down downloaded (sym v.down_at ∙ got))).0,
        λ n told. (c.2 n (answer_of g.up t.answer_up (uploaded n) (sym v.up_at ∙ told))).0,
      )

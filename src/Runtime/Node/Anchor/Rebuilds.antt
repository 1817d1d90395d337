-- ===== src/Runtime/Node/Anchor/Rebuilds.antt =====
-- Recovery from a snapshot and from the whole journal.
use ticktape.Base.{
  ℕ, ◌+◌, ◌<◌, ◌≤◌, ◌≡◌, refl, sym, ap, ap₂, ◌∙◌, false, some, List, [], ◌∷◌, ◌++◌, All, ok, ltb,
  false, ◌>>=◌, arith, length, ◌^◌,
}
use ticktape.Core.Codec.{Codec, encode_to_vec, decode_all}
use ticktape.Core.Codec.Law.{IsCodec, decode_all-encode_to_vec}
use ticktape.Core.Codec.Instances.{int-IsCodec}
use ticktape.Core.Codec.Tuples.{tuple2-IsCodec, tuple3-IsCodec}
use ticktape.Core.Codec.Containers.{vec-IsCodec}
use ticktape.Core.Frame.{Frame}
use ticktape.Core.Service.{Service}
use ticktape.Journal.Snapshots.{LoadedSnapshot}
use ticktape.Runtime.Timer
use ticktape.Runtime.Timer.{TimerWheel}
use ticktape.Runtime.Timer.Wheel.{IsValid}
use ticktape.Runtime.Timer.Snapshot.{restore-snapshot}
use ticktape.Runtime.Node.Anchor.{
  find_anchor, anchor_or_genesis, replay_after, rebuild, SameState, payload_codec, restored,
}
use ticktape.Runtime.Node.Anchor.Steps.{
  counted, Counted, replay-Counted, time_of, replay_after-captured, replay_after-behind,
  replay_after-append, replay-time,
}
use ticktape.Runtime.Node.Replay.{Rebuilt, replay, at_genesis, replay-append}

-- The wheel's timers are within u64, and few enough.
abbrev pub WheelFits : TimerWheel → Type 0
WheelFits w =
    (length (Timer.snapshot w) < 2 ^ 32)
    × All (λ e. (e.0 < 256 ^ 8) × (e.1 < 256 ^ 8) × (e.2 < 256 ^ 8)) (Timer.snapshot w)

module _ {Config State Input Output Snapshot Failure : Type 0}
    (app : Service Config State Input Output Snapshot Failure) (codec : Codec Input)
    (snapshots : Codec Snapshot) (config : Config) where
  time_of-append :
      (now : ℕ) (gone kept : List Frame)
      → 0 < length kept
      → time_of app codec snapshots config now (gone ++ kept)
        ≡ time_of app codec snapshots config 0 kept
  time_of-append now [] [] h = absurd (omega arith)
  time_of-append now [] (f ∷ kept) h = refl
  time_of-append now (f ∷ gone) kept h = time_of-append f.timestamp gone kept h

  -- A snapshot that was taken of `captured`.
  module _ {IsSnapshot : Snapshot → Type 0} (coded : IsCodec snapshots IsSnapshot)
      (captured : Rebuilt State) (snap : LoadedSnapshot)
      (payload_is : snap.payload
        ≡ encode_to_vec
            (payload_codec snapshots)
            (app.snapshot captured.service, Timer.snapshot captured.wheel))
      (fits : IsSnapshot (app.snapshot captured.service) × WheelFits captured.wheel)
      (wheel : IsValid captured.wheel)
      (restores : app.restore (app.snapshot captured.service) config ≡ captured.service) where
    taken-decodes :
        decode_all (payload_codec snapshots) snap.payload
        ≡ ok (app.snapshot captured.service, Timer.snapshot captured.wheel)
    taken-decodes =
        ap (decode_all (payload_codec snapshots)) payload_is
        ∙ decode_all-encode_to_vec
            (tuple2-IsCodec coded
              (vec-IsCodec (tuple3-IsCodec (int-IsCodec 8) (int-IsCodec 8) (int-IsCodec 8))))
            (app.snapshot captured.service, Timer.snapshot captured.wheel) fits

    pub find_anchor-taken :
        (journal_first : ℕ) (older : List LoadedSnapshot)
        → journal_first ≤ snap.seq + 1
        → find_anchor app codec snapshots config journal_first (snap ∷ older)
          ≡ some
              (record { service = captured.service; wheel = captured.wheel; from_seq = snap.seq })
    unfolding find_anchor restored
    find_anchor-taken journal_first older h =
        let reaches : ltb (snap.seq + 1) journal_first ≡ false = ground (arith, h) in
        rw reaches (
          ap
            (λ o.
              restored app codec snapshots config snap.seq o
                (find_anchor app codec snapshots config journal_first older))
            taken-decodes
          ∙ ap₂ (λ s w. some (record { service = s; wheel = w; from_seq = snap.seq })) restores
              (restore-snapshot captured.wheel wheel))

    -- Recovery from a snapshot and the journal behind it is recovery from the whole history: if the
    -- newest candidate was taken of the state that replaying `gone` and `kept` gives, and the
    -- journal holds `kept`, of which there is at least one frame, and the later frames `behind`,
    -- the rebuilt service state, timers and time are those of a replay of everything. The codecs
    -- and the service give back what was put into the snapshot.
    pub rebuild-SameState :
        (gone kept behind : List Frame) (r : Rebuilt State) (older : List LoadedSnapshot)
        (journal_first : ℕ)
        → replay app codec (at_genesis app codec config) (gone ++ kept) ≡ ok captured
        → 0 < length kept
        → All (λ f. f.seq ≤ snap.seq) kept
        → All (λ f. snap.seq < f.seq) behind
        → journal_first ≤ snap.seq + 1
        → replay app codec (at_genesis app codec config) ((gone ++ kept) ++ behind) ≡ ok r
        → (r' : Rebuilt State) × (rebuild app codec snapshots config journal_first
              (snap ∷ older)
              (kept ++ behind)
            ≡ ok r')
          × SameState app codec snapshots config r' r
    unfolding rebuild anchor_or_genesis Counted
    rebuild-SameState gone kept behind r older journal_first before some_kept old new reaches all =
        let start : Rebuilt State = record {
          service = captured.service;
          wheel = captured.wheel;
          last_timestamp = 0;
          inputs_replayed = 0;
        } in
        let tail =
          sym (ap (λ o. o >>= λ k. replay app codec k behind) before)
          ∙ sym (replay-append app codec (at_genesis app codec config) (gone ++ kept) behind)
          ∙ all in
        let (count, done) = replay-Counted app codec snapshots config captured r behind 0 tail in
        let time =
          sym (time_of-append 0 gone kept some_kept)
          ∙ sym (
              replay-time app codec snapshots config (at_genesis app codec config) captured
                (gone ++ kept) before) in
        (
          counted app codec snapshots config count r,
          ap
                (λ a. anchor_or_genesis app codec snapshots config journal_first a >>= λ anchor.
                  replay_after app codec snapshots config anchor.from_seq
                    (record {
                      service = anchor.service;
                      wheel = anchor.wheel;
                      last_timestamp = 0;
                      inputs_replayed = 0;
                    })
                    (kept ++ behind))
                (find_anchor-taken journal_first older reaches)
              ∙ replay_after-append app codec snapshots config snap.seq start kept behind
              ∙ ap (λ o. o >>= λ k. replay_after app codec snapshots config snap.seq k behind)
                  (replay_after-captured app codec snapshots config snap.seq start kept old)
              ∙ ap
                  (λ now.
                    replay_after app codec snapshots config snap.seq
                      (record start { last_timestamp = now }) behind)
                  time
              ∙ replay_after-behind app codec snapshots config snap.seq _ behind new
              ∙ done,
          record { service = refl; wheel = refl; time = refl },
        )

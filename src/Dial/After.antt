-- ===== src/Dial/After.antt =====
-- What handleConnect does once it has dialled (wisp/wisp-stream.go): it gives the semaphore back, asks
-- the detectors, and goes on with the connection or closes the stream. `err` is the text of the error.
use wispurr.Base.{
  ℕ, suc, ◌≡◌, refl, ap, ◌∙◌, List, [], ◌∷◌, ◌++◌, Bool, true, false, ◌&&◌, Option, none, some,
  ◌==◌, if◌then◌else◌, String,
}
use wispurr.Protocol.StreamType.{tcp}
use wispurr.Reputation
use wispurr.Signature.{Sample, SignatureConfig, Rings, ring_of, record_for, matches}
use wispurr.Signature.Window.{fresh, Ordered}
use wispurr.Signature.Verdict.{Event, run, own, no_rings, matches-own}
use wispurr.Dial.{Net, Globals, release_syn, add_source, map_dial_error}

-- The stream goes on; it is closed with a reason; or it is closed as blocked and the connection is
-- closed too, and the target's connection if there is one.
pub data Aftermath : Type 0 where
  connected : Aftermath
  gives_up : ℕ → Aftermath
  cuts : Bool → Aftermath

pub record AfterDial : Type 0 where
  pub globals : Globals
  pub rings : Rings
  pub result : Aftermath

abbrev pub dialled_well : Option String → Bool
dialled_well none = true
dialled_well (some text) = false

module _ (net : Net) (reaches : ℕ → ℕ → Bool) (has : String → String → Bool) where
  unfoldable pub settle_dial : Option String → Aftermath
  settle_dial none = connected
  settle_dial (some text) = gives_up (map_dial_error has (some text))

  unfoldable pub report_signature : Globals → List ℕ → ℕ → String → ℕ → Globals
  report_signature g target port remote_ip now =
      let g' : Globals = add_source net g remote_ip "synSignature" now in
      record g' {
        reputation =
            Reputation.add_dest g'.reputation (net.dest_key target port) "synSignature"
              (net.source_key remote_ip) now;
      }

  -- The detector is the one of the connection and the target, or the empty one, which never matches.
  unfoldable pub detects : SignatureConfig → Rings → ℕ → String → Bool
  detects cfg rings conn_id key = cfg.enabled && matches reaches cfg (ring_of (rings conn_id key))

  unfoldable pub ask_signature :
      SignatureConfig → Globals → Rings → ℕ → List ℕ → ℕ → String → ℕ → Option String → AfterDial
  ask_signature cfg g rings conn_id target port remote_ip now err =
      let key = net.dest_key target port in
      let s : Sample = record { time = now; ok = dialled_well err } in
      let rings' = record_for cfg rings conn_id key s in
      if detects cfg rings' conn_id key
      then record {
        globals = report_signature g target port remote_ip now;
        rings = rings';
        result = cuts (dialled_well err);
      }
      else record { globals = g; rings = rings'; result = settle_dial err }

  unfoldable pub after_dial :
      Option SignatureConfig
      → Globals
      → Rings
      → ℕ
      → ℕ
      → List ℕ
      → ℕ
      → String
      → ℕ
      → Option String
      → AfterDial
  after_dial none g rings conn_id stream_type target port remote_ip now err = record {
    globals = release_syn g stream_type;
    rings = rings;
    result = settle_dial err;
  }
  after_dial (some cfg) g rings conn_id stream_type target port remote_ip now err =
      if stream_type == tcp
      then ask_signature cfg (release_syn g stream_type) rings conn_id target port remote_ip now err
      else record { globals = release_syn g stream_type; rings = rings; result = settle_dial err }

  result_if :
      (b : Bool) (x y : AfterDial)
      → (if b then x else y).result ≡ (if b then x.result else y.result)
  result_if true x y = refl
  result_if false x y = refl

  -- With detectors that are enabled, a window that is not zero, and a clock that does not go back: after
  -- any dials and ends of connections, a connection is cut at a TCP dial exactly when the detector
  -- matches the samples of its own dials of that target in the window that ends now, this dial included;
  -- otherwise the stream goes on, or is closed with the reason of the error. No dial of another
  -- connection or target has a part in it.
  pub after_dial-verdict :
      (cfg : SignatureConfig) (w : ℕ) (g : Globals) (rest : List Event) (conn_id : ℕ)
      (target : List ℕ) (port : ℕ) (remote_ip : String) (now : ℕ) (err : Option String)
      → cfg.enabled ≡ true
      → cfg.window ≡ suc w
      → let mine =
          own conn_id (net.dest_key target port) [] rest
          ++ (record { time = now; ok = dialled_well err } ∷ []) in
        Ordered 0 mine
        → (after_dial
            (some cfg)
            g
            (run cfg no_rings rest)
            conn_id
            tcp
            target
            port
            remote_ip
            now
            err).result
          ≡ (if matches reaches cfg (fresh cfg.window now mine)
              then cuts (dialled_well err)
              else settle_dial err)
  unfolding after_dial ask_signature detects
  after_dial-verdict cfg w g rest conn_id target port remote_ip now err e h o =
      let s : Sample = record { time = now; ok = dialled_well err } in
      let key = net.dest_key target port in
      let rings' = record_for cfg (run cfg no_rings rest) conn_id key s in
      let mine = own conn_id key [] rest ++ (s ∷ []) in
      let verdict : detects cfg rings' conn_id key
          ≡ matches reaches cfg (fresh cfg.window now mine) =
        ap (λ b. b && matches reaches cfg (ring_of (rings' conn_id key))) e
        ∙ matches-own reaches cfg w rest conn_id key s e h o in
      result_if (detects cfg rings' conn_id key) _ _
      ∙ ap (λ b. if b then cuts (dialled_well err) else settle_dial err) verdict

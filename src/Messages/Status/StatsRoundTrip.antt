-- ===== src/Messages/Status/StatsRoundTrip.antt =====
-- Statistics responses (src/proto/messages.ts): the encoder against the decoder.
use tephra_js.Base.{◌≡◌, refl, ◌++◌, ok, arith}
use tephra_js.Text.{Bytes}
use tephra_js.Wire.Field
use tephra_js.Wire.Fields.Rules.{Puts-then, decode_fields-Puts, Puts-string, Puts-uint64}
use tephra_js.Wire.Number.{IsU64}
use tephra_js.Wire.Reader.{new_reader}
use tephra_js.Wire.Writer.{new_writer}
use tephra_js.Wire.Writer.Appends.{Appends-then, finish-Appends}
use tephra_js.Wire.Writer.Methods.{string-Appends, uint64-Appends}
use tephra_js.Messages.Sound.{IsName}
use tephra_js.Messages.Status.{
  WireStatsResponse, encode_stats_response, no_stats_response, stats_response_field,
  decode_stats_response,
}

pub record IsWireStatsResponse (m : WireStatsResponse) : Type 0 where
  pub event_count : IsU64 m.event_count
  pub segment_count : IsU64 m.segment_count
  pub disk_bytes : IsU64 m.disk_bytes
  pub uptime_seconds : IsU64 m.uptime_seconds
  pub active_connections : IsU64 m.active_connections
  pub active_subscriptions : IsU64 m.active_subscriptions
  pub version : IsName m.version
  pub connections_refused : IsU64 m.connections_refused
  pub max_connections : IsU64 m.max_connections
  pub connections_reaped : IsU64 m.connections_reaped

unfoldable pub stats_response_bytes : WireStatsResponse → Bytes
stats_response_bytes m =
    (((((((((Field.number 1 m.event_count ++ Field.number 2 m.segment_count)
                    ++ Field.number 3 m.disk_bytes)
                  ++ Field.number 4 m.uptime_seconds)
                ++ Field.number 5 m.active_connections)
              ++ Field.number 6 m.active_subscriptions)
            ++ Field.string 7 m.version)
          ++ Field.number 8 m.connections_refused)
        ++ Field.number 9 m.max_connections)
      ++ Field.number 10 m.connections_reaped)

pub encode_stats_response-eq :
    (m : WireStatsResponse) → encode_stats_response m ≡ stats_response_bytes m
unfolding encode_stats_response stats_response_bytes
encode_stats_response-eq m = finish-Appends (
    Appends-then
      (Appends-then
        (Appends-then
          (Appends-then
            (Appends-then
              (Appends-then
                (Appends-then
                  (Appends-then
                    (Appends-then (uint64-Appends 1 (new_writer 64) (omega arith) m.event_count)
                      (uint64-Appends 2 _ (omega arith) m.segment_count))
                    (uint64-Appends 3 _ (omega arith) m.disk_bytes))
                  (uint64-Appends 4 _ (omega arith) m.uptime_seconds))
                (uint64-Appends 5 _ (omega arith) m.active_connections))
              (uint64-Appends 6 _ (omega arith) m.active_subscriptions))
            (string-Appends 7 _ (omega arith) m.version))
          (uint64-Appends 8 _ (omega arith) m.connections_refused))
        (uint64-Appends 9 _ (omega arith) m.max_connections))
      (uint64-Appends 10 _ (omega arith) m.connections_reaped))

pub decode_stats_response-encode_stats_response :
    (m : WireStatsResponse)
    → IsWireStatsResponse m
    → decode_stats_response (new_reader (encode_stats_response m)) ≡ ok m
unfolding decode_stats_response stats_response_field stats_response_bytes
decode_stats_response-encode_stats_response m v = rw (encode_stats_response-eq m) (
    decode_fields-Puts stats_response_field (
      Puts-then stats_response_field
        (Puts-then stats_response_field
          (Puts-then stats_response_field
            (Puts-then stats_response_field
              (Puts-then stats_response_field
                (Puts-then stats_response_field
                  (Puts-then stats_response_field
                    (Puts-then stats_response_field
                      (Puts-then stats_response_field
                        (Puts-uint64 stats_response_field 1 no_stats_response (omega arith)
                          m.event_count (λ x. record no_stats_response { event_count = x })
                          (λ r. refl) v.event_count refl)
                        (Puts-uint64 stats_response_field 2
                          (record no_stats_response { event_count = m.event_count }) (omega arith)
                          m.segment_count
                          (λ x. record no_stats_response {
                            event_count = m.event_count;
                            segment_count = x;
                          })
                          (λ r. refl) v.segment_count refl))
                      (Puts-uint64 stats_response_field 3
                        (record no_stats_response {
                          event_count = m.event_count;
                          segment_count = m.segment_count;
                        })
                        (omega arith) m.disk_bytes
                        (λ x. record no_stats_response {
                          event_count = m.event_count;
                          segment_count = m.segment_count;
                          disk_bytes = x;
                        })
                        (λ r. refl) v.disk_bytes refl))
                    (Puts-uint64 stats_response_field 4
                      (record no_stats_response {
                        event_count = m.event_count;
                        segment_count = m.segment_count;
                        disk_bytes = m.disk_bytes;
                      })
                      (omega arith) m.uptime_seconds
                      (λ x. record no_stats_response {
                        event_count = m.event_count;
                        segment_count = m.segment_count;
                        disk_bytes = m.disk_bytes;
                        uptime_seconds = x;
                      })
                      (λ r. refl) v.uptime_seconds refl))
                  (Puts-uint64 stats_response_field 5
                    (record no_stats_response {
                      event_count = m.event_count;
                      segment_count = m.segment_count;
                      disk_bytes = m.disk_bytes;
                      uptime_seconds = m.uptime_seconds;
                    })
                    (omega arith) m.active_connections
                    (λ x. record no_stats_response {
                      event_count = m.event_count;
                      segment_count = m.segment_count;
                      disk_bytes = m.disk_bytes;
                      uptime_seconds = m.uptime_seconds;
                      active_connections = x;
                    })
                    (λ r. refl) v.active_connections refl))
                (Puts-uint64 stats_response_field 6
                  (record no_stats_response {
                    event_count = m.event_count;
                    segment_count = m.segment_count;
                    disk_bytes = m.disk_bytes;
                    uptime_seconds = m.uptime_seconds;
                    active_connections = m.active_connections;
                  })
                  (omega arith) m.active_subscriptions
                  (λ x. record no_stats_response {
                    event_count = m.event_count;
                    segment_count = m.segment_count;
                    disk_bytes = m.disk_bytes;
                    uptime_seconds = m.uptime_seconds;
                    active_connections = m.active_connections;
                    active_subscriptions = x;
                  })
                  (λ r. refl) v.active_subscriptions refl))
              (Puts-string stats_response_field 7
                (record no_stats_response {
                  event_count = m.event_count;
                  segment_count = m.segment_count;
                  disk_bytes = m.disk_bytes;
                  uptime_seconds = m.uptime_seconds;
                  active_connections = m.active_connections;
                  active_subscriptions = m.active_subscriptions;
                })
                (omega arith) m.version
                (λ x. record no_stats_response {
                  event_count = m.event_count;
                  segment_count = m.segment_count;
                  disk_bytes = m.disk_bytes;
                  uptime_seconds = m.uptime_seconds;
                  active_connections = m.active_connections;
                  active_subscriptions = m.active_subscriptions;
                  version = x;
                })
                (λ r. refl) v.version.text v.version.safe refl))
            (Puts-uint64 stats_response_field 8
              (record no_stats_response {
                event_count = m.event_count;
                segment_count = m.segment_count;
                disk_bytes = m.disk_bytes;
                uptime_seconds = m.uptime_seconds;
                active_connections = m.active_connections;
                active_subscriptions = m.active_subscriptions;
                version = m.version;
              })
              (omega arith) m.connections_refused
              (λ x. record no_stats_response {
                event_count = m.event_count;
                segment_count = m.segment_count;
                disk_bytes = m.disk_bytes;
                uptime_seconds = m.uptime_seconds;
                active_connections = m.active_connections;
                active_subscriptions = m.active_subscriptions;
                version = m.version;
                connections_refused = x;
              })
              (λ r. refl) v.connections_refused refl))
          (Puts-uint64 stats_response_field 9
            (record no_stats_response {
              event_count = m.event_count;
              segment_count = m.segment_count;
              disk_bytes = m.disk_bytes;
              uptime_seconds = m.uptime_seconds;
              active_connections = m.active_connections;
              active_subscriptions = m.active_subscriptions;
              version = m.version;
              connections_refused = m.connections_refused;
            })
            (omega arith) m.max_connections
            (λ x. record no_stats_response {
              event_count = m.event_count;
              segment_count = m.segment_count;
              disk_bytes = m.disk_bytes;
              uptime_seconds = m.uptime_seconds;
              active_connections = m.active_connections;
              active_subscriptions = m.active_subscriptions;
              version = m.version;
              connections_refused = m.connections_refused;
              max_connections = x;
            })
            (λ r. refl) v.max_connections refl))
        (Puts-uint64 stats_response_field 10
          (record no_stats_response {
            event_count = m.event_count;
            segment_count = m.segment_count;
            disk_bytes = m.disk_bytes;
            uptime_seconds = m.uptime_seconds;
            active_connections = m.active_connections;
            active_subscriptions = m.active_subscriptions;
            version = m.version;
            connections_refused = m.connections_refused;
            max_connections = m.max_connections;
          })
          (omega arith) m.connections_reaped
          (λ x. record {
            event_count = m.event_count;
            segment_count = m.segment_count;
            disk_bytes = m.disk_bytes;
            uptime_seconds = m.uptime_seconds;
            active_connections = m.active_connections;
            active_subscriptions = m.active_subscriptions;
            version = m.version;
            connections_refused = m.connections_refused;
            max_connections = m.max_connections;
            connections_reaped = x;
          })
          (λ r. refl) v.connections_reaped refl)))

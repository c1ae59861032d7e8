-- ===== src/Sphinx/Tests.antt =====
-- The theorems on packet processing at a concrete packet and cache.
use anonymous.Common.Results.{ok, err}
use anonymous.Common.{◌≡◌, [], replicate}
use anonymous.Kem.{replay_rejected}
use anonymous.Kem.Samples.{toy}
use anonymous.Sphinx.{stream_beta, stream_xor_range, peel, process}
use anonymous.Sphinx.Stream.{key_stream, stream_xor_range_lem}
use anonymous.Sphinx.Regions.{packet_of, length-packet_of}
use anonymous.Sphinx.Peel.{peel-peeled}
use anonymous.Sphinx.Process.{
  IsForwarded, process-IsForwarded, Outcome, process-Outcome, process_twice,
}
use anonymous.Common.Xor.{xor_at}
use anonymous.Sphinx.Samples.{
  subtle, percent, relay, cache, cache-Holds, regions, regions-IsSized, outcome, accepted,
}

process-IsForwarded_example :
    IsForwarded (process toy subtle percent (packet_of (regions 7)) relay cache).0
process-IsForwarded_example =
    process-IsForwarded toy subtle percent (packet_of (regions 7)) relay cache
      (length-packet_of (regions 7) (regions-IsSized 7))

process-Outcome_example :
    Outcome toy subtle percent
      (packet_of (regions 7))
      relay
      cache
      []
      (process toy subtle percent (packet_of (regions 7)) relay cache)
process-Outcome_example =
    process-Outcome toy subtle percent (packet_of (regions 7)) relay cache [] cache-Holds
      (length-packet_of (regions 7) (regions-IsSized 7))

process_twice_example :
    let c = (process toy subtle percent (packet_of (regions 7)) relay cache).1 in
    process toy subtle percent (packet_of (regions 7)) relay c ≡ (err replay_rejected, c)
process_twice_example =
    process_twice toy subtle percent (packet_of (regions 7)) relay cache [] outcome cache-Holds
      accepted

stream_xor_range_lem_example :
    stream_xor_range toy (replicate 64 0) 10 50 (replicate 32 7) stream_beta
    ≡ xor_at 10 (key_stream toy stream_beta (replicate 32 7) 40) (replicate 64 0)
stream_xor_range_lem_example =
    stream_xor_range_lem toy stream_beta (replicate 32 7) (replicate 64 0) 10 50

peel-peeled_example : peel toy (packet_of (regions 7)) (replicate 32 7) ≡ ok outcome
peel-peeled_example = peel-peeled toy (replicate 32 7) (regions 7) (regions-IsSized 7)

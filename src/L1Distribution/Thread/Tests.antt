-- ===== src/L1Distribution/Thread/Tests.antt =====
-- A run of the thread beside the others (l1/L1DistributionHandler.cpp).
use na62_farm_lib_networking.Base.{
  List, ℕ, map, reverse, Option, ◌>>=◌, ◌≡◌, ◌++◌, refl, [], ◌∷◌, some, true, false, inl, arith,
}
use na62_farm_lib_networking.Ethernet.Reference.{reference}
use na62_farm_lib_networking.Mrp.{TriggerRawHdr, generate_trigger_hdr}
use na62_farm_lib_networking.NetworkHandler.{Net}
use na62_farm_lib_networking.NetworkHandler.PCap
use na62_farm_lib_networking.NetworkHandler.Outbox.{all_frames, outbox}
use na62_farm_lib_networking.L1Distribution.{async_request_l1_data_multicast}
use na62_farm_lib_networking.Memory.{DataContainer}
use na62_farm_lib_networking.NetworkHandler.{async_send_frame}
use na62_farm_lib_networking.Ethernet.Frames.{generate_gratuitous_arpv4}
use na62_farm_lib_networking.L1Distribution.Thread.InBurst.{StepsInBurst}
use na62_farm_lib_networking.L1Distribution.Thread.Sender.{
  outside, with_queue, beside, pops, Runs, idle, more, RunsInBurst, AllSent, announced_by, put_by,
}
use na62_farm_lib_networking.L1Distribution.Thread.Sender.Received.{
  frames_of_all, Runs-in_order, Runs-received,
}
use na62_farm_lib_networking.L1Distribution.Thread.Example.{
  event, quiet, initial, initial-IsConsistent, begin,
}
use na62_farm_lib_networking.L1Distribution.Thread.{
  skipping, popping, sending, ThreadState, fill_step, skip_step, pop_step, thread_step,
}
use na62_farm_lib_networking.L1Distribution.Thread.Steps.{popped_one}
use na62_farm_lib_networking.L1Distribution.Thread.Interleaving.{Interleaves}
use na62_farm_lib_networking.L1Distribution.Thread.Batches.{headers, all_frames_of, in_order}
use na62_farm_lib_networking.L1Distribution.Thread.Received.{all_events}
use na62_farm_lib_networking.L1Distribution.Thread.Invariant.{IsConsistent}
use na62_farm_lib_networking.L1Distribution.Thread.Kept.{thread_step-IsConsistent}
use na62_farm_lib_networking.Mrp.Receiver.{read_frame}
use na62_farm_lib_networking.L1Distribution.Thread.Progress.{run_thread, Drains, run_thread-Drains}
use na62_farm_lib_networking.L1Distribution.Thread.System.{
  System, requests, loops, announces, Reach, here, next, request, with_net, Reach-IsConsistent,
  Reach-safe,
}

-- One request, an announcement, and the thread up to the wait for a trigger.
abbrev requested : System
requested = request false event true begin

abbrev announced : System
announced = with_net requested (PCap.thread_round [] quiet)

abbrev looked : System
looked = record announced { state = record announced.state { mark = skipping } }

abbrev waiting : System
waiting = record looked { state = record looked.state { mark = popping } }

to_looked : thread_step reference false announced.state ≡ some looked.state
unfolding thread_step async_request_l1_data_multicast fill_step
to_looked = refl

to_waiting : thread_step reference false looked.state ≡ some waiting.state
unfolding thread_step skip_step
to_waiting = refl

abbrev run_waiting : Reach reference begin waiting
run_waiting =
    next
      (next (next (next here (requests false event true)) (announces []))
        (loops false looked.state to_looked))
      (loops false waiting.state to_waiting)

thread_step-IsConsistent_example :
    (s : ThreadState) × (thread_step reference true initial ≡ some s) × IsConsistent [] s
thread_step-IsConsistent_example =
    thread_step-IsConsistent reference true [] initial initial-IsConsistent

Reach-IsConsistent_example : IsConsistent waiting.pushed waiting.state
Reach-IsConsistent_example = Reach-IsConsistent reference run_waiting initial-IsConsistent

Reach-safe_example :
    ((s : ThreadState) × (thread_step reference false waiting.state ≡ some s))
    × ((out : Net) × (bytes : ℕ) × (PCap.do_send_queued_frames true waiting.state.net
          ≡ some (out, bytes)))
Reach-safe_example = Reach-safe reference false true run_waiting initial-IsConsistent

-- Three triggers wait, one more than an MRP may have.
abbrev three : List TriggerRawHdr
three =
    generate_trigger_hdr event true
    ∷ generate_trigger_hdr event false
    ∷ generate_trigger_hdr event true
    ∷ []

abbrev loaded : ThreadState
loaded = record initial { l1 = record initial.l1 { multicast_mrp_queue = three } }

loaded-IsConsistent : IsConsistent three loaded
loaded-IsConsistent = record {
  net_valid = record { heap_valid = tt; queue_safe = tt; mac_size = refl };
  unicast_macs = (record { dhost = refl; shost = refl }, tt);
  multicast_macs = tt;
  buffer_fits = omega arith;
  bounded = omega arith;
  room = inl refl;
  none_lost = refl;
  sent_once = refl;
  counted = refl;
}

run_thread-Drains_example :
    (n : ℕ) × (s : ThreadState) × (run_thread n reference loaded ≡ some s)
    × IsConsistent three s
    × Drains loaded s
run_thread-Drains_example =
    run_thread-Drains reference three loaded refl (omega arith) loaded-IsConsistent

-- The sender takes the announcement out while the thread waits, and holds it until the end of the run.
abbrev arp : DataContainer
arp =
    record (generate_gratuitous_arpv4 [] quiet.my_address.my_mac quiet.my_address.my_ip
      quiet.heap).0 { owner_may_free_data = false }

one_waits : waiting.state.net.async_send_data ≡ arp ∷ []
unfolding PCap.thread_round async_send_frame
one_waits = refl

abbrev emptied : System
emptied = with_queue waiting []

abbrev run_popped : Runs reference (outside begin) (record { system = emptied; held = some arp })
run_popped =
    more
      (more
        (more (more (more idle (beside (requests false event true) tt)) (beside (announces []) tt))
          (beside (loops false looked.state to_looked) tt))
        (beside (loops false waiting.state to_waiting) tt))
      (pops arp [] refl one_waits)

run_popped-AllSent : AllSent reference run_popped
unfolding AllSent
run_popped-AllSent = tt

Runs-in_order_example :
    frames_of_all (record { system = emptied; held = some arp })
    ≡ frames_of_all (outside begin) ++ put_by reference run_popped
Runs-in_order_example = Runs-in_order reference run_popped initial-IsConsistent run_popped-AllSent

-- The trigger comes, is popped, and is sent.
abbrev filled : System
filled = record emptied { state = popped_one emptied.state (generate_trigger_hdr event true) [] }

to_filled : thread_step reference false emptied.state ≡ some filled.state
unfolding thread_step pop_step async_request_l1_data_multicast
to_filled = refl

abbrev full : System
full = record filled { state = record filled.state { mark = sending } }

to_full : thread_step reference false filled.state ≡ some full.state
unfolding thread_step fill_step async_request_l1_data_multicast
to_full = refl

abbrev run_full : Runs reference (outside begin) (record { system = full; held = some arp })
run_full =
    more (more run_popped (beside (loops false filled.state to_filled) tt))
      (beside (loops false full.state to_full) tt)

full-IsConsistent : IsConsistent full.pushed full.state
unfolding PCap.thread_round async_send_frame generate_gratuitous_arpv4
    async_request_l1_data_multicast
full-IsConsistent = record {
  net_valid = record { heap_valid = (omega arith, tt); queue_safe = tt; mac_size = refl };
  unicast_macs = (record { dhost = refl; shost = refl }, tt);
  multicast_macs = tt;
  buffer_fits = omega arith;
  bounded = omega arith;
  room = inl refl;
  none_lost = refl;
  sent_once = refl;
  counted = refl;
}

abbrev batch_sent :
    (s : ThreadState) × (thread_step reference false full.state ≡ some s)
    × IsConsistent full.pushed s
batch_sent = thread_step-IsConsistent reference false full.pushed full.state full-IsConsistent

abbrev done_one : System
done_one = record full { state = batch_sent.0 }

abbrev run_one : Runs reference (outside begin) (record { system = done_one; held = some arp })
run_one = more run_full (beside (loops false batch_sent.0 batch_sent.1) tt)

run_one-RunsInBurst : RunsInBurst reference run_one
unfolding RunsInBurst StepsInBurst
run_one-RunsInBurst = (((((((tt, tt), tt), refl), refl), refl), refl), refl)

run_one-AllSent : AllSent reference run_one
unfolding AllSent
run_one-AllSent = tt

Runs-received_example :
    (bs : List (List TriggerRawHdr)) × (new : List (Option (List ℕ))) × (done_one.pushed
      ≡ in_order bs
        ++ (reverse done_one.state.multicast_requests ++ done_one.state.l1.multicast_mrp_queue))
    × (frames_of_all (record { system = done_one; held = some arp })
        ≡ all_frames (outbox quiet) ++ new)
    × Interleaves
        (all_frames_of reference (headers initial.l1) bs)
        (announced_by reference run_one)
        new
    × (map (λ f. f >>= read_frame) (all_frames_of reference (headers initial.l1) bs)
        ≡ all_events (headers initial.l1) bs)
Runs-received_example =
    Runs-received reference initial.l1 quiet run_one initial-IsConsistent run_one-RunsInBurst
      run_one-AllSent (omega arith)

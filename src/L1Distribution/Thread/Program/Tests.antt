-- ===== src/L1Distribution/Thread/Program/Tests.antt =====
-- A whole program: it starts, a trigger is requested, and the thread looks at the queue
-- (socket/PCapHandler.cpp, l1/L1DistributionHandler.cpp).
use na62_farm_lib_networking.Base.{
  ℕ, ◌≡◌, refl, sym, ap, List, [], ◌∷◌, ◌++◌, some, true, false, arith, length, replicate,
}
use na62_farm_lib_networking.Ethernet.Frames.{MyAddress}
use na62_farm_lib_networking.Ethernet.Iface.{
  Kernel, find, substr, strip_prefix, strip_queue, interface_name, get_mac_of_interface,
  get_ip_of_interface,
}
use na62_farm_lib_networking.Ethernet.Mac.RoundTrip.{mac_text, string_to_mac-mac_text}
use na62_farm_lib_networking.Ethernet.Reference.{reference}
use na62_farm_lib_networking.Mrp.{Event}
use na62_farm_lib_networking.NetworkHandler.PCap.Startup.{
  Answers, LeftOver, RawSocket, ready, open_socket, new_network_handler,
}
use na62_farm_lib_networking.NetworkHandler.PCap.Startup.Started.{
  GivesSaData, constructed, new_network_handler-NetIsValid,
}
use na62_farm_lib_networking.L1Distribution.{
  L1DistributionHandler, start, Resolver, Options, initialize,
}
use na62_farm_lib_networking.L1Distribution.Thread.Invariant.{IsConsistent}
use na62_farm_lib_networking.L1Distribution.Thread.Started.{first_state, initialize-IsConsistent}
use na62_farm_lib_networking.Memory.{DataContainer}
use na62_farm_lib_networking.NetworkHandler.{async_send_frame}
use na62_farm_lib_networking.NetworkHandler.PCap.{thread_round}
use na62_farm_lib_networking.Ethernet.Frames.{generate_gratuitous_arpv4}
use na62_farm_lib_networking.L1Distribution.Thread.Sender.{
  outside, with_queue, beside, pops, Runs, idle, more,
}
use na62_farm_lib_networking.L1Distribution.Thread.Program.{started}
use na62_farm_lib_networking.L1Distribution.Thread.System.{
  System, with_net, requests, announces, request,
}

abbrev card : List ℕ
card = 0x00 ∷ 0x1b ∷ 0x21 ∷ 0xa0 ∷ 0x0f ∷ 0xff ∷ []

abbrev eth0 : List ℕ
eth0 = b'e' ∷ b't' ∷ b'h' ∷ b'0' ∷ []

abbrev works : Answers
works = record {
  socket = some 3;
  siocgifflags = λ name. some 3;
  reuse_address = true;
  bind_to_device = true;
  receive_timeout = true;
  receive_buffer = true;
  siocgifindex = λ name. some 2;
}

abbrev left : LeftOver
left = record { ifr_name = replicate 16 0; ifr_flags = 0; sockopt = 1 }

abbrev kernel : Kernel
kernel = record {
  siocgifhwaddr = λ name. some (card ++ replicate 8 0);
  siocgifaddr = λ name. some 0x0100000a;
}

gives : GivesSaData kernel
gives name bytes e = let same : card ++ replicate 8 0 ≡ bytes = cc in ap length (sym same)

abbrev me : MyAddress
me = record { my_mac = card; my_ip = 0x0100000a }

abbrev socket : RawSocket
socket = record {
  socket_ = 3;
  is_open = true;
  flags_set = (b'e' ∷ b't' ∷ b'h' ∷ [], 0x103);
  reuses_address = some 1;
  bound_to = some eth0;
  timeout_usec = some 1000;
  buffer_size = some 524288;
  sll_ifindex = 2;
}

constructs : new_network_handler works left eth0 kernel 7 ≡ some (me, ready socket)
unfolding new_network_handler open_socket get_mac_of_interface get_ip_of_interface interface_name
    strip_prefix strip_queue find substr
constructs = refl

abbrev resolver : Resolver
resolver = record { inet_addr = λ text. 0x010000ef; inet_pton = λ text. some 0x0200000a }

abbrev options : Options
options = record {
  max_triggers_per_mrp = 2;
  min_usec_between_l1_requests = 100;
  multicast_group_names = [] ∷ [];
  unicast_address = [] ∷ [] ∷ [];
  source_port = 58913;
  destination_port = 58913;
  gateway_mac = mac_text false card ++ [];
}

abbrev set_up :
    (l1 : L1DistributionHandler) × (initialize me resolver options (λ _. 0) start ≡ some l1)
    × IsConsistent [] (first_state l1 (constructed [] me))
set_up =
    initialize-IsConsistent me resolver options (λ _. 0) card (constructed [] me) refl
      (string_to_mac-mac_text false card [] refl (omega arith)) (omega arith)
      (new_network_handler-NetIsValid works left eth0 kernel 7 [] me (ready socket) gives
        constructs)

abbrev event : Event
event = record {
  timestamp = 0x01020304;
  finetime = 0x55;
  trigger_type_word = 0x0a0b;
  event_number = 0x112233;
}

abbrev requested : System
requested = request false event true (started set_up.0 (constructed [] me))

one_waits :
    (thread_round [] requested.state.net).async_send_data
    ≡ record (generate_gratuitous_arpv4 [] me.my_mac me.my_ip (constructed [] me).heap).0 {
      owner_may_free_data = false;
    }
      ∷ []
unfolding thread_round async_send_frame
one_waits = refl

-- An announcement is queued, and the sender holds it at the end of the run.
abbrev announced : System
announced = with_net requested (thread_round [] requested.state.net)

abbrev arp : DataContainer
arp = (generate_gratuitous_arpv4 [] me.my_mac me.my_ip (constructed [] me).heap).0

abbrev kept : DataContainer
kept = record arp { owner_may_free_data = false }

abbrev run_popped :
    Runs reference
      (outside (started set_up.0 (constructed [] me)))
      (record { system = with_queue announced []; held = some kept })
run_popped =
    more (more (more idle (beside (requests false event true) tt)) (beside (announces []) tt))
      (pops kept [] refl one_waits)

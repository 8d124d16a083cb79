-- ===== src/L1Distribution/Sending/Front.antt =====
-- `Async_SendMRP` beside a frame in front of the send queue (l1/L1DistributionHandler.cpp).
use na62_farm_lib_networking.Base.{
  ◌≡◌, ◌∙◌, refl, ap, List, [], ◌∷◌, Option, none, some, true, ◌>>=◌,
}
use mathlib.Core.Option
use na62_farm_lib_networking.Ethernet.Checksum.{Checksums}
use na62_farm_lib_networking.Memory.{DataContainer, new_array}
use na62_farm_lib_networking.Mrp.{TriggerRawHdr, MrpFrameHdr}
use na62_farm_lib_networking.NetworkHandler.{Net, async_send_frame}
use na62_farm_lib_networking.L1Distribution.{L1DistributionHandler}
use na62_farm_lib_networking.L1Distribution.Sending.{
  Packed, make_frame, send_frames, async_send_mrp,
}

-- The state with `d` in front of the queue.
abbrev pub front : DataContainer → Net → Net
front d net = record net { async_send_data = d ∷ net.async_send_data }

same_bind {ℓ κ μ} :
    {A : Type ℓ} {B : Type κ} {C : Type μ} (m : Option A) (f : A → Option C) (g : A → Option B)
    (h : B → C)
    → ((x : A) → f x ≡ Option.map h (g x))
    → (m >>= f) ≡ Option.map h (m >>= g)
same_bind none f g h e = refl
same_bind (some x) f g h e = e x

mapped_bind {ℓ κ} :
    {A : Type ℓ} {B : Type κ} (k : A → A) (m m' : Option A) (f g : A → Option B) (h : B → B)
    → m' ≡ Option.map k m
    → ((x : A) → f (k x) ≡ Option.map h (g x))
    → (m' >>= f) ≡ Option.map h (m >>= g)
mapped_bind k none m' f g h same e = ap (λ r. r >>= f) same
mapped_bind k (some x) m' f g h same e = ap (λ r. r >>= f) same ∙ e x

send_frames-front :
    (c : Checksums) (p : Packed) (hdrs : List MrpFrameHdr) (d : DataContainer) (net : Net)
    → send_frames c p hdrs (front d net) ≡ Option.map (front d) (send_frames c p hdrs net)
unfolding send_frames async_send_frame
send_frames-front c p [] d net = refl
send_frames-front c p (hdr ∷ hdrs) d net =
    same_bind (make_frame c p.number_of_triggers p.contents hdr) _ _ (front d) λ frame.
      send_frames-front c p hdrs d (
        async_send_frame
          (record {
            data_ = (new_array frame net.heap).0;
            length = p.offset;
            owner_may_free_data = true;
          })
          (record net { heap = (new_array frame net.heap).1 }))

abbrev pub front_result :
    DataContainer
    → List TriggerRawHdr × L1DistributionHandler × Net
    → List TriggerRawHdr × L1DistributionHandler × Net
front_result d r = (r.0, r.1, front d r.2)

-- A batch queues behind what waits, and does not look at it.
pub async_send_mrp-front :
    (c : Checksums) (ts : List TriggerRawHdr) (l1 : L1DistributionHandler) (d : DataContainer)
    (net : Net)
    → async_send_mrp c ts l1 (front d net)
      ≡ Option.map (front_result d) (async_send_mrp c ts l1 net)
unfolding async_send_mrp
async_send_mrp-front c ts l1 d net = same_bind _ _ _ (front_result d) λ p.
    mapped_bind (front d) (send_frames c p l1.l1_unicast_request_hdrs net) _ _ _ (front_result d)
      (send_frames-front c p l1.l1_unicast_request_hdrs d net)
      λ n.
        mapped_bind (front d) (send_frames c p l1.l1_multicast_request_hdrs n) _ _ _
          (front_result d) (send_frames-front c p l1.l1_multicast_request_hdrs d n) λ n'. refl

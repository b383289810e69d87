-- ===== src/Core/Net/Tests.antt =====
-- The theorems on a connection at a server with one object.
use ddfs.Base.{ℕ, ◌+◌, ◌≡◌, refl, true, false, Option, none, some, List, [], ◌∷◌, arith}
use ddfs.Core.Net.{
  World, Sent, Kernel, Handlers, pkt_size, con_send, con_send_pkt, con_send_reply, con_recv_pkt,
  sent_pkt, sent_page,
}
use ddfs.Core.Net.Data.{SameHeap}
use ddfs.Core.Net.Memory.{HandlersEnd}
use ddfs.Core.Net.Replies.{Silence, process_pkt-Handled, PktSays, con_recv_pkt-PktSays}
use ddfs.Core.Net.Requested.{Handled}
use ddfs.Core.Net.Requests.{
  recv_pages, send_loop, send_pages, get_reply, get_read, con_get_obj, con_put_obj, handle,
  process_pkt,
}
use ddfs.Core.Pages.{
  Heap, page_count, alloc_pages, free_pages, pages_create, pages_release, dsum_loop, pages_dsum,
}
use ddfs.Crt.NetPkt.{NetPkt, net_pkt_sum, net_pkt_check, net_pkt_sign, net_pkt_zero}
use ddfs.Crt.NetPkt.Accept.{net_pkt_sign-check}

-- Every write is whole, all memory is granted, and the checksum is the sum of what it covers.
abbrev sum_of : List ℕ → ℕ
sum_of [] = 0
sum_of (x ∷ xs) = x + sum_of xs

abbrev get_request : NetPkt
get_request = net_pkt_sign sum_of (record net_pkt_zero { type = 2; dsize = 3 })

abbrev put_request : NetPkt
put_request = net_pkt_sign sum_of (record net_pkt_zero { type = 3 })

abbrev whole : List Sent → ℕ × ℕ
whole [] = (0, 0)
whole (sent_pkt p ∷ s) = (0, pkt_size)
whole (sent_page p n ∷ s) = (0, n)

abbrev kernel : Kernel
kernel = record {
  read_pkt = λ n. (0, pkt_size, get_request);
  read_page = λ n len. (0, len, λ i. 7);
  write = whole;
  granted = λ _. true;
  array = λ _. true;
  pkt_given = λ _. true;
  digest = sum_of;
}

-- The superblocks as one object, of which two bytes are read.
abbrev one_object : Handlers ℕ
one_object = record {
  get_obj = λ id off len pages mem heap store.
      some (record { heap = heap; store = store; value = (0, 2, λ page i. 5) });
  put_obj =
      λ id off len pages mem heap store. some (record { heap = heap; store = len; value = 0 });
  create_obj = λ heap store.
      some (record { heap = heap; store = 0; value = (0, record { high = 1; low = 2 }) });
  delete_obj = λ id heap store. some (record { heap = heap; store = 0; value = 0 });
  query_obj = λ id heap store. some (record { heap = heap; store = store; value = (0, store, []) });
  handshake = λ pkt reply w. some (0, w);
  heartbeat = λ pkt reply w. some (0, w);
}

unmoved : (h : Heap) → SameHeap h h
unmoved h = record { live = λ n. refl; arrays = refl }

one_object-HandlersEnd : HandlersEnd one_object
one_object-HandlersEnd = record {
  get_obj = λ id off len pages mem heap store. (_, refl, unmoved heap);
  put_obj = λ id off len pages mem heap store. (_, refl, unmoved heap);
  create_obj = λ heap store. (_, refl, unmoved heap);
  delete_obj = λ id heap store. (_, refl, unmoved heap);
  query_obj = λ id heap store. (_, refl, unmoved heap);
}

abbrev start : World ℕ
start = record {
  err = 0;
  reads = 0;
  sent = [];
  heap = record { next = 0; live = λ _. false; arrays = 0 };
  mem = λ _ _. 0;
  store = 0;
}

-- The errors and the numbers of bytes of what was sent.
abbrev sizes : List Sent → List ℕ
sizes [] = []
sizes (sent_pkt p ∷ s) = p.err ∷ p.dsize ∷ sizes s
sizes (sent_page p n ∷ s) = n ∷ sizes s

abbrev said : Option (ℕ × World ℕ) → List ℕ
said none = []
said (some o) = sizes o.1.sent

-- The reply to a request says that two bytes follow, and they do.
get_says : said (process_pkt kernel one_object get_request start) ≡ 2 ∷ 0 ∷ 2 ∷ []
unfolding process_pkt handle con_get_obj get_read get_reply send_pages send_loop con_send_reply
    con_send_pkt con_send pages_create page_count alloc_pages free_pages pages_dsum dsum_loop
    pages_release net_pkt_sign net_pkt_sum
get_says = refl

-- A request to write no bytes is refused with -EINVAL.
put_says : said (process_pkt kernel one_object put_request start) ≡ 22 ∷ 0 ∷ []
unfolding process_pkt handle con_put_obj recv_pages con_send_reply con_send_pkt con_send
    net_pkt_sign
put_says = refl

get_request-accepted : net_pkt_check sum_of get_request ≡ 0
get_request-accepted =
    net_pkt_sign-check sum_of (record net_pkt_zero { type = 2; dsize = 3 }) (omega arith)

process_pkt-Handled_example :
    (o : ℕ × World ℕ) × (process_pkt kernel one_object get_request start ≡ some o)
    × Handled sum_of (Silence kernel get_request) start o.1
unfolding net_pkt_sign
process_pkt-Handled_example =
    process_pkt-Handled kernel one_object one_object-HandlersEnd get_request start refl
      (λ n h. refl) get_request-accepted (λ e. omega (arith, e)) (λ e. omega (arith, e))

con_recv_pkt-PktSays_example : PktSays kernel start (con_recv_pkt kernel start)
con_recv_pkt-PktSays_example = con_recv_pkt-PktSays kernel start refl

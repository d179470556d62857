-- ===== src/Main/Transferred.antt =====
-- The whole client, on a command line that asks for a GET.
use retriever.Base.{ℕ, ◌+◌, ◌<◌, ◌≤◌, ◌^◌, ◌≡◌, refl, ap, ◌∙◌, sym, subst, List, [], ◌++◌}
use retriever.Base.{none, some, length}
use retriever.Os.World.{World, Bytes, Key, Node, Attempt}
use retriever.Os.Program.{Run, ok, err, waits}
use retriever.Os.Files.{lookup, resolve}
use retriever.Os.Triples.{Settles, Ends, Contract, Contract-weaken, Contract-also}
use retriever.Os.Calm.{IsSound, Never}
use retriever.Os.Resources.{Waits, counting}
use retriever.Socket.Stream.{Ending, open_ended, stream, ending}
use retriever.Sha256.Padding.{sha256}
use retriever.Sha256.Hex.{sha256_hex}
use retriever.Frame.{payload_cap, t_ok}
use retriever.Frame.Encoding.{encode_header}
use retriever.Frame.Writing.{frame_bytes}
use retriever.Transfer.Path.{dir_max, max_name, token_size, split_path, has_slash, format_partial}
use retriever.Transfer.Get.Appending.{Holds}
use retriever.Transfer.Get.Replied.{Waiting}
use retriever.Transfer.Get.Completing.{IsPlain}
use retriever.Transfer.Get.Delivery.{offer, do_get-delivers}
use retriever.Main.{Command, perform, main, exit_success}
use retriever.Main.Usage.{Usage}
use retriever.Main.Exits.{Settles-ends}
use retriever.Main.Resources.{any_command}
use retriever.Main.Tracked.{perform-Tracked}
use retriever.Main.Conversing.{IsReachable, host_of, port_of, main-converses}
use retriever.Main.Delivery.{Delivered, delivering}

-- The status is left as it is.
Settles-held :
    (e : Ending) (k : Key) (body : Bytes) (r : Run ℕ)
    → Settles (Waits e) (λ code w. (code ≡ exit_success) × Delivered e k body w) Never r
    → Settles (Waits e) (λ code w. (code ≡ exit_success) × Holds k body w) (λ _. ⊥) r
Settles-held e k body (ok a w) (same, (ends, held)) = (same, held)
Settles-held e k body (err w) l = l
Settles-held e k body (waits w) l = l

module _ (name dest dir base body more : Bytes) (n : ℕ) (e : Ending) (files : List (Key × Node))
    (fits : n < 2 ^ 64) (small : length body < 2 ^ 64) (short : length name ≤ max_name)
    (splits : split_path dest dir_max (max_name + 1) ≡ some (dir, base))
    (missing : lookup (resolve dest) files ≡ none)
    (plain : IsPlain (
      lookup
        (resolve (format_partial (has_slash dest) dir base (sha256_hex (sha256 body) token_size)))
        files)) where
  abbrev reply : Bytes
  reply = encode_header t_ok n ++ (offer body ++ (body ++ more))

  get-Holds :
      Contract Never
        (Waiting files reply)
        (perform (Command.get name dest))
        (λ _. Holds (resolve dest) body)
        Never
  unfolding perform
  get-Holds = record {
    runs = λ w (same, ((clear, sound), comes)).
        do_get-delivers name dest dir base body more n w clear sound comes fits small short splits
          (ap (λ (fs : List (Key × Node)). lookup (resolve dest) fs) same ∙ missing)
          (subst
            (λ (fs : List (Key × Node)). IsPlain (
              lookup
                (resolve
                  (format_partial (has_slash dest) dir base (sha256_hex (sha256 body) token_size)))
                fs))
            (sym same) plain);
  }

  perform-get :
      Contract Never
        (λ w. (ending w.inbox ≡ e) × Waiting files reply w)
        (perform (Command.get name dest))
        (λ _. Delivered e (resolve dest) body)
        Never
  perform-get = record {
    runs = λ w (ends, p).
        (Contract-weaken
            (Contract-also
              (perform-Tracked (counting e) {b = w.heap} {h = w.handles} {s = w.sockets}
                (Command.get name dest) (any_command e (Command.get name dest)))
              get-Holds)
            (λ _ w' (counted, held). (counted.ends, held))).runs
          w (record { ends = ends; blocks = refl; opens = refl; connections = refl }, p);
  }

-- Where the command line asks for a GET, an address takes the connection, no call of the C library
-- fails, and the server answers HELLO with an OK frame and GET with an OK frame that has the size, the
-- offset 0, the hash and the contents of a file, and closes or breaks the connection at any later
-- time: `main` exits with 0, and the contents stand at the destination. The limits are those of
-- `rtrv_do_get`: on the names, on what stands at the destination (nothing) and at the place of the
-- partial file (nothing, or a regular file).
pub main-delivers :
    (argv : List Bytes) (name dest dir base body greeting more : Bytes) (n : ℕ)
    (results : List Attempt) (w : World)
    → Usage argv (Command.get name dest)
    → w.addresses (host_of argv) (port_of argv) ≡ some results
    → IsReachable results
    → w.faults ≡ []
    → IsSound w.rooms
    → ¬ (ending w.inbox ≡ open_ended)
    → stream w.inbox
      ≡ frame_bytes t_ok greeting ++ (encode_header t_ok n ++ (offer body ++ (body ++ more)))
    → length greeting ≤ payload_cap
    → n < 2 ^ 64
    → length body < 2 ^ 64
    → length name ≤ max_name
    → split_path dest dir_max (max_name + 1) ≡ some (dir, base)
    → lookup (resolve dest) w.files ≡ none
    → IsPlain (
        lookup
          (resolve (format_partial (has_slash dest) dir base (sha256_hex (sha256 body) token_size)))
          w.files)
    → Ends (λ code w'. (code ≡ exit_success) × Holds (resolve dest) body w') (λ _. ⊥) (main argv w)
main-delivers argv name dest dir base body greeting more n results w usage found reachable clear
      sound finite comes welcome fits small short splits missing plain =
    let e : Ending = ending w.inbox in
    let c : Command = Command.get name dest in
    let reply : Bytes = encode_header t_ok n ++ (offer body ++ (body ++ more)) in
    Settles-ends e (λ code w'. (code ≡ exit_success) × Holds (resolve dest) body w') (λ _. ⊥) _
      finite
      (Settles-held e (resolve dest) body _ (
        main-converses
          (delivering e (resolve dest) body c w.files greeting reply welcome (
            perform-get name dest dir base body more n e w.files fits small short splits missing
              plain))
          argv results w usage found reachable (refl, (refl, ((clear, sound), comes)))))

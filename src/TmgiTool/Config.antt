-- ===== src/TmgiTool/Config.antt =====
-- tools/c/tmgi-tool/init.c: the configuration that the tool writes for Open5GS.
use rt_5gc_service_consumers.Common.{
  ℕ, ◌-◌, ◌%◌, ◌^◌, ◌<◌, ◌||◌, [], ◌∷◌, ◌++◌, Option, none, some, Str, bytes, decimal, has-decimal,
  ltb, if◌then◌else◌, is_some, Bool-cases, inl, inr, ◌≡◌, ◌↔◌, refl, arith,
}
use rt_5gc_service_consumers.ToolOptions.{done, Address, split_address_and_port}
use rt_5gc_service_consumers.ToolOptions.Split.{split_last-append}
use rt_5gc_service_consumers.TmgiTool.Options.{AppOptions}

abbrev newline : Str
newline = 10 ∷ []

-- `%i` of a `short int` that holds the given 16 bits.
unfoldable pub short_text : ℕ → Str
short_text n = if ltb n (2 ^ 15) then decimal n else b'-' ∷ decimal (2 ^ 16 - n)

-- `http://%s:%i`
unfoldable pub uri_of : Address → Str
unfolding short_text
uri_of a = bytes "http://" ++ a.host ++ b':' ∷ short_text a.port

unfoldable pub uri_lines : Str → Option Address → Str
unfolding uri_of
uri_lines name none = []
uri_lines name (some a) =
    bytes "      " ++ name ++ bytes ":" ++ newline ++ bytes "        - uri: " ++ uri_of a ++ newline

abbrev config_hdr : Str → Str
config_hdr app_name =
    bytes "global:"
    ++ newline
    ++ bytes "  max:"
    ++ newline
    ++ bytes "    ue: 16"
    ++ newline
    ++ newline
    ++ bytes "sbi:"
    ++ newline
    ++ bytes "  server:"
    ++ newline
    ++ bytes "    no_tls: true"
    ++ newline
    ++ bytes "  client:"
    ++ newline
    ++ bytes "    no_tls: true"
    ++ newline
    ++ newline
    ++ app_name
    ++ bytes ":"
    ++ newline
    ++ bytes "  discovery:"
    ++ newline
    ++ bytes "    delegated: auto"
    ++ newline
    ++ bytes "  sbi:"
    ++ newline
    ++ bytes "    server:"
    ++ newline
    ++ bytes "      - address: 127.0.0.1"
    ++ newline
    ++ bytes "        port: 0"
    ++ newline

-- What is written to the file, when it can be opened.
unfoldable pub write_app_yaml_config : AppOptions → Str
unfolding uri_lines
write_app_yaml_config o =
    config_hdr (bytes "tmgi-tool")
    ++ (if is_some o.nrf_address || is_some o.scp_address
        then bytes "    client:" ++ newline
        else [])
    ++ uri_lines (bytes "nrf") o.nrf_address
    ++ uri_lines (bytes "scp") o.scp_address

append-cancel : (a b c : Str) → a ++ b ≡ a ++ c → b ≡ c
append-cancel [] b c h = h
append-cancel (x ∷ a) b c h = append-cancel a b c (cc)

decimal-minus : (n : ℕ) (s : Str) → decimal n ≡ b'-' ∷ s → ⊥
decimal-minus n s h = absurd (ground (arith, has-decimal b'-' n refl, h))

short_text-decimal_iff : (n : ℕ) → n < 2 ^ 16 → (short_text n ≡ decimal n) ↔ (n < 2 ^ 15)
unfolding short_text
short_text-decimal_iff n h = elim (Bool-cases (ltb n (2 ^ 15))) [
  | inl e ↦ (λ k. ground arith, λ k. ground arith)
  | inr e ↦ (
    λ k. absurd (decimal-minus n (decimal (2 ^ 16 - n)) (ground arith)),
    λ k. absurd (ground arith),
  )
]

-- The URI in the configuration for an address given as `host:port` on the command line, where the
-- port is a number below 2 ^ 16 that `atoi` reads and the host is any text, has the port that was
-- given exactly when it is below 2 ^ 15.
pub split_address_and_port-uri_of :
    (atoi : Str → ℕ) (host : Str) (n : ℕ)
    → n < 2 ^ 16
    → atoi (decimal n) ≡ n
    → (a : Address) × (split_address_and_port atoi (host ++ b':' ∷ decimal n) ≡ done a)
      × ((uri_of a ≡ bytes "http://" ++ host ++ b':' ∷ decimal n) ↔ (n < 2 ^ 15))
unfolding split_address_and_port uri_of
split_address_and_port-uri_of atoi host n below reads =
    let same : n % 2 ^ 16 ≡ n = omega arith in
    let iff = short_text-decimal_iff n below in
    let front = bytes "http://" ++ host in
    (
      record { host = host; port = n },
      rw (split_last-append b':' host (decimal n) (has-decimal b':' n refl), reads, same) refl,
      (
        λ h. iff.0 (tail_eq (append-cancel front (b':' ∷ short_text n) (b':' ∷ decimal n) h)),
        λ k. rw (iff.1 k) refl,
      ),
    )
  where
    tail_eq : {c : ℕ} {s t : Str} → c ∷ s ≡ c ∷ t → s ≡ t
    tail_eq e = cc

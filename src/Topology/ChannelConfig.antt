-- ===== src/Topology/ChannelConfig.antt =====
-- ToChannelConfig of plugins/TopologyConfig.cxx: a socket property as an option of FairMQ. boost::split is a
-- parameter.
use nestdaq.Base.{
  ℕ, zero, suc, ◌-◌, not, ◌&&◌, List, [], ◌∷◌, ◌++◌, Option, none, some, length, if◌then◌else◌,
}
use nestdaq.Text.{Text, codes, text_eq, join}
use nestdaq.Text.Number.{ℤ, pos, negsuc, to_string}
use nestdaq.Text.Split.{Algorithm}
use nestdaq.Topology.Address.{occurs}
use nestdaq.Topology.Property.{SocketProperty, flag}

-- "unspecified" n times
unfoldable pub unspecified : ℕ → List Text
unspecified zero = []
unspecified (suc n) = codes "unspecified" ∷ unspecified n

-- p.numSockets, where a loop runs to it; a negative number makes it run not at all.
abbrev pub rounds : ℤ → ℕ
rounds (pos n) = n
rounds (negsuc n) = 0

-- What is missing at `n` addresses; a negative number of sockets is compared as a large size, and the
-- loop that adds to the addresses does not end.
unfoldable pub lacking : ℕ → ℤ → Option ℕ
lacking n (pos m) = some (m - n)
lacking n (negsuc m) = none

abbrev pub between : Text
between = codes ",address="

module _ (A : Algorithm) where
  -- The addresses of the sockets; `none` if they never are complete.
  unfoldable pub addresses : SocketProperty → Option (List Text)
  unfolding unspecified lacking
  addresses p =
      if occurs (codes ",") p.address
      then elim (lacking (length (A.split p.address (codes ","))) p.num_sockets) [
        | none ↦ none
        | some n ↦ some (A.split p.address (codes ",") ++ unspecified n)
      ]
      else if not (text_eq p.address []) && not (text_eq p.address (codes "unspecified"))
      then some (p.address ∷ [])
      else some (codes "unspecified" ∷ unspecified (rounds p.num_sockets - 1))

  -- Only the parameters that FairMQ supports.
  unfoldable pub to_channel_config : SocketProperty → Option Text
  unfolding addresses
  to_channel_config p = elim (addresses p) [
    | none ↦ none
    | some as' ↦ some (
        codes "name="
        ++ (p.name
            ++ (codes ",type="
                ++ (p.socket_type
                    ++ (codes ",method="
                        ++ (p.method
                            ++ (codes ",address="
                                ++ (join as' between
                                    ++ (codes ",transport="
                                        ++ (p.transport
                                            ++ (codes ",rcvBufSize="
                                                ++ (to_string p.rcv_buf_size
                                                    ++ (codes ",sndBufSize="
                                                        ++ (to_string p.snd_buf_size
                                                            ++ (codes ",rcvKernelSize="
                                                            ++ (to_string p.rcv_kernel_size
                                                            ++ (codes ",sndKernelSize="
                                                            ++ (to_string p.snd_kernel_size
                                                            ++ (codes ",linger="
                                                            ++ (to_string p.linger
                                                            ++ (codes ",rateLogging="
                                                            ++ (to_string p.rate_logging
                                                            ++ (codes ",portRangeMin="
                                                            ++ (to_string p.port_range_min
                                                            ++ (codes ",portRangeMax="
                                                            ++ (to_string p.port_range_max
                                                            ++ (codes ",autoBind="
                                                            ++ flag
                                                            p.auto_bind)))))))))))))))))))))))))))
  ]

-- ===== src/Agent/HotmethodChannel/Parameters.antt =====
-- HotmethodChannel.cpp and Perf.cpp: the sampling parameters, which both files fill in.
use mini_drop.Base.{◌+◌, ◌^◌, ◌<◌, ◌≡◌, arith}
use mini_drop.Proto.Hotmethod.{TaskDesc}
use mini_drop.Common.Perf.{default_hz, default_duration, wait_limit}
use mini_drop.Agent.HotmethodChannel.{sampling}

-- For a task whose duration fits into 32 bits with the ten seconds that are added, and that names no
-- shorter timeout: the rate, the duration and the timeout are positive, the recording ends before the
-- timeout, and the defaults of `Perf::Record` change nothing any more.
pub sampling_bounds :
    (task : TaskDesc)
    → task.sample_argv.duration + 10 < 2 ^ 32
    → task.timeout_sec ≡ 0
    → let s = sampling task in
      (0 < s.hz)
      × (0 < s.duration)
      × (s.timeout ≡ s.duration + 10)
      × (default_hz s.hz ≡ s.hz)
      × (default_duration s.duration ≡ s.duration)
      × (wait_limit s.duration s.timeout ≡ s.timeout)
unfolding sampling
sampling_bounds task h k = ground arith

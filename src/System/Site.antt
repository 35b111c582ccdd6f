-- ===== src/System/Site.antt =====
-- One agent and the server it beats to: HealthCheckChannel.cpp on one side of the call `Do`, the
-- services of drop/server/main.cpp on the other, and the agent's worker that takes the tasks.
pub mod Tasks
pub mod Loss
pub mod Counts
pub mod Rounds
use mini_drop.Base.{ℕ, String, Bool, true, false, List, [], ◌∷◌, Option}
use mini_drop.Proto.Hotmethod.{TaskDesc}
use mini_drop.Proto.Rpc.{ok, failed, HealthCheckResponse, new_health_check}
use mini_drop.Server.HealthCheck.{heartbeat}
use mini_drop.Server.DropServer.{DropServer, Call, beats, step}
use mini_drop.Agent.HealthCheckChannel.{Channel, start, stop, request, receive, pop_task}

pub record Site : Type 0 where
  pub server : DropServer
  pub channel : Channel

-- What can happen next. A heartbeat of this agent is answered in time; or the server has served it and
-- the answer does not arrive, as after the deadline of 3 seconds; or it never reaches the server.
-- `serves` is a call of anyone else, or a scan.
pub data Event : Type 0 where
  serves : Call → Event
  beats_answered : ℕ → Event
  beats_unanswered : ℕ → String → Event
  beats_unsent : String → Event
  pops starts stops : Event

module _ (env : String → Option String) where
  -- The response of the server to the agent's next heartbeat.
  abbrev pub answer_to : Site → ℕ → HealthCheckResponse
  answer_to s now =
      (heartbeat env now s.server.health s.server.control (request s.channel)).response

  abbrev pub after_beat : Site → ℕ → DropServer
  after_beat s now = (step env s.server (beats now (request s.channel))).server

  unfoldable pub happens : Site → Event → Site
  happens s (serves c) = record s { server = (step env s.server c).server }
  happens s (beats_answered now) = record {
    server = after_beat s now;
    channel = (receive s.channel ok (answer_to s now)).0;
  }
  happens s (beats_unanswered now message) = record {
    server = after_beat s now;
    channel = (receive s.channel (failed message) (answer_to s now)).0;
  }
  happens s (beats_unsent message) = record s {
    channel = (receive s.channel (failed message) new_health_check).0;
  }
  happens s pops = record s { channel = (pop_task s.channel).1 }
  happens s starts = record s { channel = start s.channel }
  happens s stops = record s { channel = (stop s.channel).0 }

  unfoldable pub after : Site → List Event → Site
  unfolding happens
  after s [] = s
  after s (e ∷ events) = after (happens s e) events

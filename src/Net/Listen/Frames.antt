-- ===== src/Net/Listen/Frames.antt =====
-- dom0/dom0-main/server/src/dom0_server.cc: what a listener reads of the arguments of `dom0Server`.
